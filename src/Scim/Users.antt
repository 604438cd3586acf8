-- ===== src/Scim/Users.antt =====
-- src/scim/users.rs and the statements behind it in src/db/users.rs: the users that an identity
-- provider maintains. As in Scim/Groups a request is handled alone, and the case mapping is a
-- parameter. The columns of the budget, which no request reads, and the bodies of the answers are
-- left out.
pub mod Patch
pub mod Requests
pub mod Confined
pub mod Deactivation
mod Tests
use claude_code_aws_gateway.Prelude.{
  ℕ, Bool, true, false, not, ◌&&◌, ◌||◌, Option, none, some, List, [], ◌∷◌, eqb, nat_eq, ◌==◌,
  if◌then◌else◌,
}
use claude_code_aws_gateway.Prelude.Text.{Text, codes, text_eq}
use claude_code_aws_gateway.Prelude.Assoc.{Assoc, lookup, insert}
use claude_code_aws_gateway.Json.{Json, Fields, end, field, get}
use claude_code_aws_gateway.Json.Access.{at, str_at, as_str, as_bool, as_object, and_then, or_else}
use claude_code_aws_gateway.Scim.Groups.{
  Response, ok, created, no_content, bad_request, not_found, conflict, internal, ScimPatchOp,
  required_name,
}

pub record User : Type 0 where
  pub email : Text
  pub role : Text
  pub active : Bool
  pub external_id : Option Text
  pub display_name : Option Text
  pub given_name : Option Text
  pub family_name : Option Text
  pub scim_managed : Bool
  pub idp_id : Option ℕ

abbrev pub Users : Type 0
Users = Assoc ℕ User

-- The columns that a request may set.
pub record Draft : Type 0 where
  pub email : Text
  pub external_id : Option Text
  pub display_name : Option Text
  pub given_name : Option Text
  pub family_name : Option Text
  pub active : Bool

abbrev pub draft_of : User → Draft
draft_of u = record {
  email = u.email;
  external_id = u.external_id;
  display_name = u.display_name;
  given_name = u.given_name;
  family_name = u.family_name;
  active = u.active;
}

abbrev pub with_draft : Draft → User → User
with_draft d u = record u {
  email = d.email;
  external_id = d.external_id;
  display_name = d.display_name;
  given_name = d.given_name;
  family_name = d.family_name;
  active = d.active;
}

abbrev pub is_provider : ℕ → Option ℕ → Bool
is_provider idp none = false
is_provider idp (some i) = eqb i idp

abbrev pub is_in_scope : ℕ → User → Bool
is_in_scope idp u = not (u.scim_managed && not (is_provider idp u.idp_id))

abbrev pub scoped : ℕ → Option User → Option User
scoped idp none = none
scoped idp (some u) = if is_in_scope idp u then some u else none

abbrev pub same_external : Option Text → User → Bool
same_external none u = false
same_external (some e) u = elim u.external_id [ none ↦ false | some f ↦ f == e ]

-- Whether a user with the email is there, or one of the provider with the external id.
unfoldable pub is_known : ℕ → Text → Option Text → Users → Bool
is_known idp email external_id [] = false
is_known idp email external_id ((j, u) ∷ users) =
    (u.email == email || same_external external_id u && is_provider idp u.idp_id)
    || is_known idp email external_id users

-- Another row with the email or with the external id, whatever its provider, against the unique
-- indexes of the table.
unfoldable pub is_taken : ℕ → Text → Option Text → Users → Bool
is_taken id email external_id [] = false
is_taken id email external_id ((j, u) ∷ users) =
    not (eqb j id) && (u.email == email || same_external external_id u)
    || is_taken id email external_id users

-- The outer option is the error of an index, the inner one a row that is missing.
unfoldable pub update_scim_user : ℕ → Draft → Users → Option (Option Users)
unfolding is_taken lookup insert
update_scim_user id d users = elim (lookup id users) [
  | none ↦ some none
  | some u ↦
      if is_taken id d.email d.external_id users
      then none
      else some (some (insert id (with_draft d u) users))
]
