-- ===== src/Scim/Groups.antt =====
-- src/scim/groups.rs and the tables behind it, src/db/scim_groups.rs: the groups that an identity
-- provider maintains, and the roles of their members. A request is handled alone; of the errors of
-- the database the ones that its constraints raise are kept. Parameters are the case mapping and the
-- parser of uuids. The body of an answer is left out.
pub mod Membership
pub mod Tables
pub mod Patch
pub mod Requests
mod Tests
use claude_code_aws_gateway.Prelude.{
  ℕ, Bool, true, false, not, ◌&&◌, ◌||◌, Option, none, some, List, [], ◌∷◌, ◌++◌, eqb, any, retain,
  map, take, drop, length, nat_eq, ◌==◌, ◌-◌, if◌then◌else◌,
}
use claude_code_aws_gateway.Prelude.Text.{Text, codes, text_eq, starts_with, ends_with}
use claude_code_aws_gateway.Prelude.Assoc.{Assoc, lookup, insert, remove}
use claude_code_aws_gateway.Json.{Json, null, Fields, end, field}
use claude_code_aws_gateway.Json.Access.{at, str_at, as_str, as_array, as_object, and_then, or_else}
use claude_code_aws_gateway.Scim.Groups.Membership.{
  Members, has, remove_member, set_members, add_members, members_of, contains, track, track_all,
}
use claude_code_aws_gateway.Scim.Groups.Tables.{
  Group, Directory, Roles, is_user, set_role, evaluate_user_role, update_scim_group,
  external_id_taken,
}

pub record Db : Type 0 where
  pub users : Roles
  pub directory : Directory

pub data Response : Type 0 where
  ok created no_content bad_request not_found conflict internal : Response

unfoldable pub is_success : Response → Bool
is_success ok = true
is_success created = true
is_success no_content = true
is_success bad_request = false
is_success not_found = false
is_success conflict = false
is_success internal = false

pub record ScimPatchOp : Type 0 where
  pub op : Text
  pub path : Option Text
  pub value : Option Json

-- What the operations of a patch have gathered, with the rows that they changed.
pub record Patched : Type 0 where
  pub name : Text
  pub external_id : Option Text
  pub users_to_sync : List ℕ
  pub members : Members

-- An operation goes on, or ends the request early, with the rows as they are then.
pub data Step : Type 0 where
  go : Patched → Step
  fail : Response → Members → Step

abbrev pub then_step : Step → (Patched → Step) → Step
then_step (go p) f = f p
then_step (fail r ms) f = fail r ms

abbrev is_empty : Text → Bool
is_empty [] = true
is_empty (c ∷ s) = false

-- `get("displayName")` as a text that is not empty
abbrev pub required_name : Option Text → Option Text
required_name none = none
required_name (some []) = none
required_name (some (c ∷ s)) = some (c ∷ s)

abbrev pub with_members : Members → Db → Db
with_members ms db = record db { directory = record db.directory { members = ms } }

module _ (lowercase : Text → Text) where
  -- The role is evaluated and stored.
  unfoldable pub sync_user_role : Directory → ℕ → ℕ → Roles → Roles
  unfolding evaluate_user_role set_role
  sync_user_role dir idp u users = set_role u (evaluate_user_role lowercase dir u idp) users

  unfoldable pub sync_roles : Directory → ℕ → List ℕ → Roles → Roles
  unfolding sync_user_role
  sync_roles dir idp [] users = users
  sync_roles dir idp (u ∷ us) users = sync_roles dir idp us (sync_user_role dir idp u users)

  unfoldable pub sync_roles_for_users : ℕ → List ℕ → Db → Db
  unfolding sync_roles
  sync_roles_for_users idp us db = record db { users = sync_roles db.directory idp us db.users }

module _ (parse_uuid : Text → Option ℕ) where
  abbrev pub member_id : Json → Option ℕ
  member_id item = and_then (str_at (codes "value") item) parse_uuid

  abbrev pub member_ids : List Json → Option (List ℕ)
  member_ids [] = some []
  member_ids (x ∷ xs) =
      and_then (member_id x) (λ u. elim (member_ids xs) [ none ↦ none | some us ↦ some (u ∷ us) ])

  -- Nothing is a bad request.
  unfoldable pub extract_member_ids : Json → Option (List ℕ)
  unfolding str_at
  extract_member_ids value = and_then (as_array value) member_ids

  abbrev pub path_prefix : Text
  path_prefix = codes "members[value eq \""

  abbrev pub path_suffix : Text
  path_suffix = codes "\"]"

  abbrev pub strip_suffix : Text → Option Text
  strip_suffix s =
      if ends_with s path_suffix then some (take (length s - length path_suffix) s) else none

  unfoldable pub extract_member_id_from_path : Text → Option ℕ
  unfolding starts_with ends_with
  extract_member_id_from_path path =
      if starts_with path path_prefix
      then and_then (strip_suffix (drop (length path_prefix) path)) parse_uuid
      else none
