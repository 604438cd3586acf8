-- ===== src/Scim/Groups/Requests/Roles.antt =====
-- The roles in the tables of src/db/scim_groups.rs.
use claude_code_aws_gateway.Prelude.{
  ℕ, true, false, ◌≡◌, refl, ◌∙◌, inl, inr, Option, some, List, [], ◌∷◌, eqb, eqb_iff, arith,
  Bool-cases, nat_eq, if◌then◌else◌,
}
use claude_code_aws_gateway.Prelude.Text.{Text, text_eq}
use claude_code_aws_gateway.Prelude.Assoc.{lookup, map_option}
use claude_code_aws_gateway.Scim.Groups.{sync_user_role, sync_roles}
use claude_code_aws_gateway.Scim.Groups.Membership.{contains}
use claude_code_aws_gateway.Scim.Groups.Tables.{
  Directory, Roles, is_user, set_role, evaluate_user_role, update_scim_group,
}

lookup-set_role :
    (u v : ℕ) (role : Text) (users : Roles)
    → lookup v (set_role u role users)
      ≡ (if eqb u v then map_option (λ (old : Text). role) (lookup v users) else lookup v users)
unfolding set_role lookup
lookup-set_role u v role [] = ground arith
lookup-set_role u v role ((w, old) ∷ users) =
    ground (arith, lookup-set_role u v role users, eqb_iff u w, eqb_iff w v, eqb_iff u v)

pub update-members :
    (id : ℕ) (name : Text) (external_id : Option Text) (dir d : Directory)
    → update_scim_group id name external_id dir ≡ some (some d)
    → d.members ≡ dir.members
unfolding update_scim_group
update-members id name external_id dir d e = ground arith

pub lookup-is_user :
    (users : Roles) (u : ℕ) (role : Text) → lookup u users ≡ some role → is_user users u ≡ true
unfolding is_user
lookup-is_user users u role e = rw (e, is_user) refl

module _ (lowercase : Text → Text) (dir : Directory) (idp u : ℕ) where
  pub lookup-sync_kept :
      (us : List ℕ) (users : Roles)
      → contains u us ≡ false
      → lookup u (sync_roles lowercase dir idp us users) ≡ lookup u users
  unfolding sync_roles sync_user_role contains
  lookup-sync_kept [] users n = refl
  lookup-sync_kept (v ∷ us) users n = ground (
    arith,
    lookup-sync_kept us (sync_user_role lowercase dir idp v users),
    lookup-set_role v u (evaluate_user_role lowercase dir v idp) users,
    eqb_iff u v,
    eqb_iff v u,
  )

  pub lookup-sync_roles :
      (us : List ℕ) (users : Roles) (old : Text)
      → lookup u users ≡ some old
      → contains u us ≡ true
      → lookup u (sync_roles lowercase dir idp us users)
        ≡ some (evaluate_user_role lowercase dir u idp)
  unfolding sync_roles sync_user_role contains
  lookup-sync_roles [] users old known n = ground arith
  lookup-sync_roles (v ∷ us) users old known n =
      let next = sync_user_role lowercase dir idp v users in
      let role = evaluate_user_role lowercase dir v idp in
      let set = lookup-set_role v u role users in
      elim (Bool-cases (contains u us)) [
        | inl c ↦ elim (Bool-cases (eqb v u)) [
          | inl d ↦ lookup-sync_roles us next role (rw (d, known) at set) c
          | inr d ↦ lookup-sync_roles us next old (rw (d, known) at set) c
        ]
        | inr c ↦
            let same : u ≡ v = ground (arith, eqb_iff u v) in
            lookup-sync_kept us next c
            ∙ rw same (unfold sync_user_role in ground (arith, lookup-set_role v v, eqb_iff v v))
      ]
