-- ===== src/Scim/Groups/Requests/Synced.antt =====
-- The roles after the requests of src/scim/groups.rs.
use claude_code_aws_gateway.Prelude.{
  ℕ, true, false, ◌≡◌, refl, inl, inr, Option, some, List, eqb_iff, arith, Bool-cases, Option-cases,
  nat_eq,
}
use claude_code_aws_gateway.Prelude.Text.{Text, codes, text_eq}
use claude_code_aws_gateway.Prelude.Assoc.{lookup}
use claude_code_aws_gateway.Json.{Json}
use claude_code_aws_gateway.Json.Access.{str_at}
use claude_code_aws_gateway.Scim.Groups.{
  Db, no_content, bad_request, not_found, conflict, is_success, ScimPatchOp, required_name,
}
use claude_code_aws_gateway.Scim.Groups.Membership.{Members, has, members_of}
use claude_code_aws_gateway.Scim.Groups.Membership.Laws.{has-clear, contains-members_of}
use claude_code_aws_gateway.Scim.Groups.Tables.{
  Group, is_user, update_scim_group, external_id_taken,
}
use claude_code_aws_gateway.Scim.Groups.Patch.Noted.{IsNoted, Others}
use claude_code_aws_gateway.Scim.Groups.Patch.Operations.{apply_ops-Ends}
use claude_code_aws_gateway.Scim.Groups.Requests.{
  Call, create, replace, patch, delete, scoped, create_group, replace_group, unpatched, patch_group,
  delete_rows, delete_group, handle,
}
use claude_code_aws_gateway.Scim.Groups.Requests.Roles.{update-members, lookup-is_user}
use claude_code_aws_gateway.Scim.Groups.Requests.Outcomes.{
  IsSynced, Succeeds, failed-Succeeds, updated-Succeeds, synced-Succeeds, fill-Succeeds,
  refill-Succeeds, finish-Succeeds,
}

module _ (lowercase : Text → Text) (idp id u : ℕ) (before : Db) (old : Text)
    (known : lookup u before.users ≡ some old) where
  create-Succeeds :
      (parse_uuid : Text → Option ℕ) (g : ℕ) (body : Json)
      → has g u before.directory.members ≡ false
      → Succeeds lowercase idp id u before (create_group lowercase parse_uuid idp g body before)
  unfolding create_group
  create-Succeeds parse_uuid g body new =
      elim (Option-cases (required_name (str_at (codes "displayName") body))) [
        | inl e ↦
            rw (e, create_group)
              (failed-Succeeds lowercase idp id u before old known bad_request before
                (unfold is_success in refl))
        | inr (name, e) ↦
            rw (e, create_group)
              (elim (Bool-cases (
                external_id_taken g (str_at (codes "externalId") body) idp
                  before.directory.groups)) [
                    | inl t ↦ rw t (
                        failed-Succeeds lowercase idp id u before old known conflict before
                          (unfold is_success in refl))
                    | inr t ↦
                        rw t (fill-Succeeds lowercase idp id u before old known g _ _ refl new)
                  ])
      ]

  replace-Succeeds :
      (parse_uuid : Text → Option ℕ) (g : ℕ) (body : Json)
      → Succeeds lowercase idp id u before (replace_group lowercase parse_uuid idp g body before)
  unfolding replace_group
  replace-Succeeds parse_uuid g body =
      elim (Option-cases (scoped idp (lookup g before.directory.groups))) [
        | inl e ↦
            rw (e, replace_group)
              (failed-Succeeds lowercase idp id u before old known not_found before
                (unfold is_success in refl))
        | inr (group, e) ↦ elim (Option-cases (required_name (str_at (codes "displayName") body))) [
          | inl f ↦
              rw (e, f, replace_group)
                (failed-Succeeds lowercase idp id u before old known bad_request before
                  (unfold is_success in refl))
          | inr (name, f) ↦
              rw (e, f, replace_group)
                (updated-Succeeds lowercase idp id u before old known
                  (update_scim_group g name (str_at (codes "externalId") body) before.directory) _
                  before
                  (λ d h.
                    refill-Succeeds lowercase idp id u before old known g _ d
                      (update-members g name _ _ d h)))
        ]
      ]

  unpatched-IsNoted :
      (g : ℕ) (group : Group)
      → IsNoted
          (is_user before.users)
          g
          u
          before.directory.members
          (unpatched group before.directory.members)
  unfolding Others
  unpatched-IsNoted g group = record { others = λ h e. refl; noted = λ user c. refl }

  patch-Succeeds :
      (parse_uuid : Text → Option ℕ) (g : ℕ) (ops : List ScimPatchOp)
      → Succeeds lowercase idp id u before (patch_group lowercase parse_uuid idp g ops before)
  unfolding patch_group
  patch-Succeeds parse_uuid g ops =
      elim (Option-cases (scoped idp (lookup g before.directory.groups))) [
        | inl e ↦
            rw (e, patch_group)
              (failed-Succeeds lowercase idp id u before old known not_found before
                (unfold is_success in refl))
        | inr (group, e) ↦
            rw (e, patch_group)
              (finish-Succeeds lowercase idp id u before old known g _ (
                apply_ops-Ends parse_uuid (is_user before.users) g u before.directory.members
                  lowercase ops (unpatched group before.directory.members)
                  (unpatched-IsNoted g group)))
      ]

  delete-Succeeds :
      (parse_uuid : Text → Option ℕ) (g : ℕ)
      → Succeeds lowercase idp id u before (delete_group lowercase parse_uuid idp g before)
  unfolding delete_group
  delete-Succeeds parse_uuid g =
      elim (Option-cases (scoped idp (lookup g before.directory.groups))) [
        | inl e ↦
            rw (e, delete_group)
              (failed-Succeeds lowercase idp id u before old known not_found before
                (unfold is_success in refl))
        | inr (group, e) ↦
            rw (e, delete_group)
              (synced-Succeeds lowercase idp id u before old known no_content
                (members_of (is_user before.users) g before.directory.members)
                (delete_rows g before).directory
                (λ c. ground (
                  arith,
                  has-clear g id u before.directory.members,
                  eqb_iff id g,
                  contains-members_of (is_user before.users) g u before.directory.members
                      (lookup-is_user before.users u old known),
                )))
      ]

-- The id of a group that is created has no rows yet.
abbrev pub IsNew : Call → Members → ℕ → Type 0
IsNew (create fresh body) ms u = has fresh u ms ≡ false
IsNew (replace id body) ms u = Unit
IsNew (patch id ops) ms u = Unit
IsNew (delete id) ms u = Unit

handle-Succeeds :
    (lowercase : Text → Text) (parse_uuid : Text → Option ℕ) (idp id u : ℕ) (call : Call) (db : Db)
    (old : Text)
    → lookup u db.users ≡ some old
    → IsNew call db.directory.members u
    → Succeeds lowercase idp id u db (handle lowercase parse_uuid idp call db)
unfolding handle
handle-Succeeds lowercase parse_uuid idp id u (create fresh body) db old known new =
    create-Succeeds lowercase idp id u db old known parse_uuid fresh body new
handle-Succeeds lowercase parse_uuid idp id u (replace g body) db old known new =
    replace-Succeeds lowercase idp id u db old known parse_uuid g body
handle-Succeeds lowercase parse_uuid idp id u (patch g ops) db old known new =
    patch-Succeeds lowercase idp id u db old known parse_uuid g ops
handle-Succeeds lowercase parse_uuid idp id u (delete g) db old known new =
    delete-Succeeds lowercase idp id u db old known parse_uuid g

-- After a request that succeeds, for every group and every known user: the membership is the one
-- before, or the user has the role that the groups of the provider now give. A group that is created
-- has no members before.
pub handle-IsSynced :
    (lowercase : Text → Text) (parse_uuid : Text → Option ℕ) (idp id u : ℕ) (call : Call) (db : Db)
    (old : Text)
    → lookup u db.users ≡ some old
    → IsNew call db.directory.members u
    → is_success (handle lowercase parse_uuid idp call db).0 ≡ true
    → IsSynced lowercase idp id u db (handle lowercase parse_uuid idp call db).1
unfolding handle
handle-IsSynced lowercase parse_uuid idp id u call db old known new success =
    unfold Succeeds in handle-Succeeds lowercase parse_uuid idp id u call db old known new success
