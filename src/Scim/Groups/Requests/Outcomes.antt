-- ===== src/Scim/Groups/Requests/Outcomes.antt =====
-- How a request of src/scim/groups.rs ends, and the role of one user then.
use claude_code_aws_gateway.Prelude.{
  ℕ, true, false, ◌≡◌, refl, ap, ◌∙◌, ◌⊎◌, inl, inr, Option, none, some, List, [], ◌∷◌, eqb_iff,
  arith, Bool-cases, Option-cases, nat_eq,
}
use claude_code_aws_gateway.Prelude.Text.{Text, text_eq}
use claude_code_aws_gateway.Prelude.Assoc.{lookup}
use claude_code_aws_gateway.Scim.Groups.{
  Db, Response, ok, created, no_content, bad_request, not_found, internal, is_success, Step, go,
  fail, with_members, sync_roles_for_users,
}
use claude_code_aws_gateway.Scim.Groups.Membership.{
  has, contains, set_members, members_of, track_all,
}
use claude_code_aws_gateway.Scim.Groups.Membership.Laws.{
  has-set_members, contains-track_all, contains-members_of,
}
use claude_code_aws_gateway.Scim.Groups.Tables.{
  Directory, is_user, evaluate_user_role, update_scim_group,
}
use claude_code_aws_gateway.Scim.Groups.Patch.Noted.{Ends, Others, noted-kept}
use claude_code_aws_gateway.Scim.Groups.Requests.{
  members_set, fill, refill, updated, finish, synced,
}
use claude_code_aws_gateway.Scim.Groups.Requests.Roles.{
  update-members, lookup-is_user, lookup-sync_roles,
}

module _ (lowercase : Text → Text) (idp id u : ℕ) (before : Db) where
  -- The membership is the old one, or the role is that of the memberships now.
  unfoldable pub IsSynced : Db → Type 0
  IsSynced after =
      (has id u after.directory.members ≡ has id u before.directory.members)
      ⊎ (lookup u after.users ≡ some (evaluate_user_role lowercase after.directory u idp))

  -- An answer that tells of success.
  unfoldable pub Succeeds : Response × Db → Type 0
  Succeeds r = is_success r.0 ≡ true → IsSynced r.1

  module _ (old : Text) (known : lookup u before.users ≡ some old) where
    -- A noted user gets the role, and the others have their membership.
    pub synced-Succeeds :
        (r : Response) (us : List ℕ) (dir : Directory)
        → (contains u us ≡ false → has id u dir.members ≡ has id u before.directory.members)
        → Succeeds (synced lowercase idp r us (record before { directory = dir }))
    unfolding Succeeds IsSynced sync_roles_for_users
    synced-Succeeds r us dir kept s = elim (Bool-cases (contains u us)) [
      | inl c ↦ inr (lookup-sync_roles lowercase dir idp u us before.users old known c)
      | inr c ↦ inl (kept c)
    ]

    pub failed-Succeeds : (r : Response) (db : Db) → is_success r ≡ false → Succeeds (r, db)
    unfolding Succeeds
    failed-Succeeds r db f s = ground arith

    pub updated-Succeeds :
        (o : Option (Option Directory)) (f : Db → Response × Db) (db : Db)
        → ((d : Directory) → o ≡ some (some d) → Succeeds (f (record db { directory = d })))
        → Succeeds (updated o f db)
    updated-Succeeds none f db k = failed-Succeeds internal db (unfold is_success in refl)
    updated-Succeeds (some none) f db k = failed-Succeeds not_found db (unfold is_success in refl)
    updated-Succeeds (some (some d)) f db k = k d refl

    -- New members of some group, with its old members and its new ones affected.
    members_set-Succeeds :
        (r : Response) (g : ℕ) (ids affected : List ℕ) (dir : Directory)
        → dir.members ≡ before.directory.members
        → (contains u affected ≡ false
            → (contains u ids ≡ false) × (has g u before.directory.members ≡ false))
        → Succeeds (members_set lowercase idp r g ids affected (record before { directory = dir }))
    members_set-Succeeds r g ids affected dir same fresh =
        elim (Option-cases (set_members (is_user before.users) g ids dir.members)) [
          | inl e ↦ rw (e, members_set) (failed-Succeeds internal _ (unfold is_success in refl))
          | inr (ms, e) ↦
              rw (e, members_set)
                (synced-Succeeds r affected (record dir { members = ms })
                  (λ c.
                    let f = fresh c in
                    ground (
                      arith,
                      has-set_members (is_user before.users) g id u ids dir.members ms e,
                      f.0,
                      f.1,
                      eqb_iff id g,
                      ap (has id u) same,
                    )))
        ]

    pub fill-Succeeds :
        (g : ℕ) (o : Option (List ℕ)) (dir : Directory)
        → dir.members ≡ before.directory.members
        → has g u before.directory.members ≡ false
        → Succeeds (fill lowercase idp g o (record before { directory = dir }))
    fill-Succeeds g none dir same new = failed-Succeeds bad_request _ (unfold is_success in refl)
    fill-Succeeds g (some []) dir same new =
        synced-Succeeds created [] dir (λ c. ap (has id u) same)
    fill-Succeeds g (some (v ∷ vs)) dir same new =
        members_set-Succeeds created g (v ∷ vs) (v ∷ vs) dir same (λ c. (c, new))

    pub refill-Succeeds :
        (g : ℕ) (o : Option (List ℕ)) (dir : Directory)
        → dir.members ≡ before.directory.members
        → Succeeds (
            refill lowercase idp g
              (members_of (is_user before.users) g before.directory.members)
              o
              (record before { directory = dir }))
    refill-Succeeds g none dir same = failed-Succeeds bad_request _ (unfold is_success in refl)
    refill-Succeeds g (some ids) dir same =
        let old_ids = members_of (is_user before.users) g before.directory.members in
        members_set-Succeeds ok g ids (track_all ids old_ids) dir same (λ c. ground (
          arith,
          contains-track_all u ids old_ids,
          contains-members_of (is_user before.users) g u before.directory.members
              (lookup-is_user before.users u old known),
        ))

    pub finish-Succeeds :
        (g : ℕ) (s : Step)
        → Ends (is_user before.users) g u before.directory.members s
        → Succeeds (finish lowercase idp g s before)
    unfolding Ends Others
    finish-Succeeds g (fail r ms) e = failed-Succeeds r _ e.1
    finish-Succeeds g (go p) n =
        updated-Succeeds
          (update_scim_group g p.name p.external_id (with_members p.members before).directory)
          (synced lowercase idp no_content p.users_to_sync) (with_members p.members before)
          (λ d e. synced-Succeeds no_content p.users_to_sync d (λ c.
            ap (has id u) (update-members g p.name p.external_id _ d e)
            ∙ noted-kept (is_user before.users) g u before.directory.members p n
                (lookup-is_user before.users u old known) c id))
