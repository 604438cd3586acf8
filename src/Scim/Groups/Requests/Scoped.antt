-- ===== src/Scim/Groups/Requests/Scoped.antt =====
-- What the requests of src/scim/groups.rs leave of other providers' groups.
use claude_code_aws_gateway.Prelude.{
  ℕ, false, ◌≡◌, refl, inl, inr, Option, none, some, subst, List, eqb, eqb_iff, arith, Bool-cases,
  Option-cases, nat_eq, subst,
}
use claude_code_aws_gateway.Prelude.Text.{Text, codes, text_eq}
use claude_code_aws_gateway.Prelude.Assoc.{Assoc, lookup, lookup-remove}
use claude_code_aws_gateway.Json.{Json}
use claude_code_aws_gateway.Json.Access.{str_at}
use claude_code_aws_gateway.Scim.Groups.{Db, ScimPatchOp, required_name, sync_roles_for_users}
use claude_code_aws_gateway.Scim.Groups.Membership.Laws.{has-clear}
use claude_code_aws_gateway.Scim.Groups.Tables.{Group, is_user, external_id_taken}
use claude_code_aws_gateway.Scim.Groups.Patch.Noted.{IsNoted, Others}
use claude_code_aws_gateway.Scim.Groups.Patch.Operations.{apply_ops-Ends}
use claude_code_aws_gateway.Scim.Groups.Requests.{
  Call, create, replace, patch, delete, scoped, add_group, create_group, replace_group, unpatched,
  patch_group, delete_group, handle,
}
use claude_code_aws_gateway.Scim.Groups.Requests.Kept.{
  lookup_other-insert, IsKept, fill-IsKept, refill-IsKept, updated-IsKept, finish-IsKept,
}

-- A patch starts with no user noted.
unpatched-IsNoted :
    (g u : ℕ) (group : Group) (db : Db)
    → IsNoted (is_user db.users) g u db.directory.members (unpatched group db.directory.members)
unfolding Others
unpatched-IsNoted g u group db = record { others = λ h e. refl; noted = λ user c. refl }

module _ (idp h : ℕ) (other : Group) where
  -- The group that a request finds in its scope is not that of another provider.
  scoped-differs :
      (groups : Assoc ℕ Group) (g : ℕ) (group : Group)
      → lookup h groups ≡ some other
      → eqb other.idp_id idp ≡ false
      → scoped idp (lookup g groups) ≡ some group
      → eqb h g ≡ false
  scoped-differs groups g group known foreign e = elim (Bool-cases (eqb h g)) [
    | inr n ↦ n
    | inl t ↦
        let found = subst (λ x. lookup x groups ≡ some other) ((eqb_iff h g).0 t) known in
        ground (arith, rw found at e)
  ]

  differs_new :
      (groups : Assoc ℕ Group) (g : ℕ)
      → lookup h groups ≡ some other
      → lookup g groups ≡ none
      → eqb h g ≡ false
  differs_new groups g known new = elim (Bool-cases (eqb h g)) [
    | inr n ↦ n
    | inl t ↦
        let found = subst (λ x. lookup x groups ≡ some other) ((eqb_iff h g).0 t) known in
        ground (arith, found, new)
  ]

-- A new group has an id that no group has.
abbrev pub IsUnused : Call → Assoc ℕ Group → Type 0
IsUnused (create fresh body) groups = lookup fresh groups ≡ none
IsUnused (replace g body) groups = Unit
IsUnused (patch g ops) groups = Unit
IsUnused (delete g) groups = Unit

module _ (lowercase : Text → Text) (parse_uuid : Text → Option ℕ) (idp h u : ℕ) (db : Db)
    (other : Group) (known : lookup h db.directory.groups ≡ some other)
    (foreign : eqb other.idp_id idp ≡ false) where
  unchanged : IsKept lowercase idp h u db.directory db.directory
  unchanged = record { group = refl; membership = refl }

  create-Kept :
      (g : ℕ) (body : Json)
      → lookup g db.directory.groups ≡ none
      → IsKept lowercase idp h u db.directory
          (create_group lowercase parse_uuid idp g body db).1.directory
  unfolding create_group
  create-Kept g body new =
      let n = differs_new idp h other db.directory.groups g known new in
      let external_id = str_at (codes "externalId") body in
      elim (Option-cases (required_name (str_at (codes "displayName") body))) [
        | inl e ↦ rw (e, create_group) unchanged
        | inr (name, e) ↦
            elim (Bool-cases (external_id_taken g external_id idp db.directory.groups)) [
              | inl t ↦ rw (e, t, create_group) unchanged
              | inr t ↦
                  rw (e, t, create_group)
                    (fill-IsKept lowercase idp h u db.directory g _
                      (add_group idp g name external_id db) n
                      (record {
                        group =
                            lookup_other-insert g h
                              (record {
                                display_name = name;
                                external_id = external_id;
                                idp_id = idp;
                              })
                              db.directory.groups n;
                        membership = refl;
                      }))
            ]
      ]

  replace-Kept :
      (g : ℕ) (body : Json)
      → IsKept lowercase idp h u db.directory
          (replace_group lowercase parse_uuid idp g body db).1.directory
  unfolding replace_group
  replace-Kept g body = elim (Option-cases (scoped idp (lookup g db.directory.groups))) [
    | inl e ↦ rw (e, replace_group) unchanged
    | inr (group, e) ↦
        let n = scoped-differs idp h other db.directory.groups g group known foreign e in
        elim (Option-cases (required_name (str_at (codes "displayName") body))) [
          | inl f ↦ rw (e, f, replace_group) unchanged
          | inr (name, f) ↦
              rw (e, f, replace_group)
                (updated-IsKept lowercase idp h u db.directory g name
                  (str_at (codes "externalId") body) _ db n unchanged
                  (λ d k.
                    refill-IsKept lowercase idp h u db.directory g _ _ (record db { directory = d })
                      n k))
        ]
  ]

  patch-Kept :
      (g : ℕ) (ops : List ScimPatchOp)
      → IsKept lowercase idp h u db.directory
          (patch_group lowercase parse_uuid idp g ops db).1.directory
  unfolding patch_group
  patch-Kept g ops = elim (Option-cases (scoped idp (lookup g db.directory.groups))) [
    | inl e ↦ rw (e, patch_group) unchanged
    | inr (group, e) ↦
        rw (e, patch_group)
          (finish-IsKept lowercase idp h u db.directory g _ db
            (scoped-differs idp h other db.directory.groups g group known foreign e) unchanged
            (apply_ops-Ends parse_uuid (is_user db.users) g u db.directory.members lowercase ops
              (unpatched group db.directory.members) (unpatched-IsNoted g u group db)))
  ]

  delete-Kept :
      (g : ℕ)
      → IsKept lowercase idp h u db.directory
          (delete_group lowercase parse_uuid idp g db).1.directory
  unfolding delete_group sync_roles_for_users
  delete-Kept g = elim (Option-cases (scoped idp (lookup g db.directory.groups))) [
    | inl e ↦ rw (e, delete_group) unchanged
    | inr (group, e) ↦
        let n = scoped-differs idp h other db.directory.groups g group known foreign e in
        rw (e, delete_group)
          (record {
            group = ground (arith, lookup-remove g h db.directory.groups, eqb_iff g h, eqb_iff h g);
            membership = ground (arith, has-clear g h u db.directory.members);
          })
  ]

-- A request of one provider, also one that fails, leaves a group of another provider and its
-- members as they are, if a new group has an id that no group has.
pub handle-IsKept :
    (lowercase : Text → Text) (parse_uuid : Text → Option ℕ) (idp h u : ℕ) (call : Call) (db : Db)
    (other : Group)
    → lookup h db.directory.groups ≡ some other
    → eqb other.idp_id idp ≡ false
    → IsUnused call db.directory.groups
    → IsKept lowercase idp h u db.directory (handle lowercase parse_uuid idp call db).1.directory
unfolding handle
handle-IsKept lowercase parse_uuid idp h u (create fresh body) db other known foreign new =
    create-Kept lowercase parse_uuid idp h u db other known foreign fresh body new
handle-IsKept lowercase parse_uuid idp h u (replace g body) db other known foreign new =
    replace-Kept lowercase parse_uuid idp h u db other known foreign g body
handle-IsKept lowercase parse_uuid idp h u (patch g ops) db other known foreign new =
    patch-Kept lowercase parse_uuid idp h u db other known foreign g ops
handle-IsKept lowercase parse_uuid idp h u (delete g) db other known foreign new =
    delete-Kept lowercase parse_uuid idp h u db other known foreign g
