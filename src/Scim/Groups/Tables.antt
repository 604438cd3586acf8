-- ===== src/Scim/Groups/Tables.antt =====
-- The tables of src/db/scim_groups.rs beside the members: the groups, what the identity providers
-- say of roles, and the roles of the users.
use claude_code_aws_gateway.Prelude.{
  ℕ, Bool, true, false, ◌&&◌, ◌||◌, Option, none, some, List, [], ◌∷◌, eqb, any, not, nat_eq, ◌==◌,
  if◌then◌else◌,
}
use claude_code_aws_gateway.Prelude.Text.{Text, codes, text_eq}
use claude_code_aws_gateway.Prelude.Assoc.{Assoc, lookup, insert}
use claude_code_aws_gateway.Json.{Json}
use claude_code_aws_gateway.Json.Access.{as_array, as_str, or_else}
use claude_code_aws_gateway.Scim.Groups.Membership.{Members, has}

pub record Group : Type 0 where
  pub display_name : Text
  pub external_id : Option Text
  pub idp_id : ℕ

pub record IdentityProvider : Type 0 where
  pub scim_admin_groups : Json
  pub default_role : Text

pub record Directory : Type 0 where
  pub groups : Assoc ℕ Group
  pub members : Members
  pub providers : Assoc ℕ IdentityProvider

-- The role of each user.
abbrev pub Roles : Type 0
Roles = Assoc ℕ Text

unfoldable pub is_user : Roles → ℕ → Bool
unfolding lookup
is_user users u = elim (lookup u users) [ none ↦ false | some role ↦ true ]

-- `UPDATE users SET role`
unfoldable pub set_role : ℕ → Text → Roles → Roles
set_role u role [] = []
set_role u role ((v, old) ∷ users) =
    let rest = set_role u role users in (v, if eqb u v then role else old) ∷ rest

module _ (lowercase : Text → Text) where
  abbrev pub names_of : List Json → List Text
  names_of [] = []
  names_of (x ∷ xs) = elim (as_str x) [ none ↦ names_of xs | some s ↦ lowercase s ∷ names_of xs ]

  -- Whether a group of the provider that has the user is one of the named.
  abbrev pub in_named : List Text → Members → ℕ → ℕ → Assoc ℕ Group → Bool
  in_named names members u idp [] = false
  in_named names members u idp ((id, g) ∷ groups) =
      eqb g.idp_id idp && has id u members && any (λ n. n == lowercase g.display_name) names
      || in_named names members u idp groups

  abbrev pub role_under : Directory → ℕ → ℕ → IdentityProvider → List Text → Text
  role_under dir u idp provider [] = provider.default_role
  role_under dir u idp provider (name ∷ names) =
      if in_named (name ∷ names) dir.members u idp dir.groups
      then codes "admin"
      else provider.default_role

  unfoldable pub evaluate_user_role : Directory → ℕ → ℕ → Text
  unfolding has lookup
  evaluate_user_role dir u idp = elim (lookup idp dir.providers) [
    | none ↦ codes "member"
    | some provider ↦
        role_under dir u idp provider (names_of (or_else (as_array provider.scim_admin_groups) []))
  ]

abbrev pub is_external : Text → ℕ → Group → Bool
is_external external_id idp g = elim g.external_id [
  | none ↦ false
  | some e ↦ e == external_id && eqb g.idp_id idp
]

-- Whether another group of the provider has the external id, against the unique index.
unfoldable pub external_id_taken : ℕ → Option Text → ℕ → Assoc ℕ Group → Bool
external_id_taken id none idp groups = false
external_id_taken id (some external_id) idp [] = false
external_id_taken id (some external_id) idp ((j, g) ∷ groups) =
    not (eqb j id) && is_external external_id idp g
    || external_id_taken id (some external_id) idp groups

-- The outer option is the error of the index, the inner one a row that is missing.
unfoldable pub update_scim_group : ℕ → Text → Option Text → Directory → Option (Option Directory)
unfolding external_id_taken lookup insert
update_scim_group id name external_id dir = elim (lookup id dir.groups) [
  | none ↦ some none
  | some group ↦
      if external_id_taken id external_id group.idp_id dir.groups
      then none
      else some (
          some (record dir {
            groups =
                insert id (record group { display_name = name; external_id = external_id })
                  dir.groups;
          }))
]
