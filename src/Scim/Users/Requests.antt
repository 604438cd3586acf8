-- ===== src/Scim/Users/Requests.antt =====
-- The requests of src/scim/users.rs, for the provider of a token.
use claude_code_aws_gateway.Prelude.{
  ℕ, Bool, true, false, Option, none, some, List, nat_eq, if◌then◌else◌,
}
use claude_code_aws_gateway.Prelude.Text.{Text, codes, text_eq}
use claude_code_aws_gateway.Prelude.Assoc.{lookup, insert}
use claude_code_aws_gateway.Json.{Json}
use claude_code_aws_gateway.Json.Access.{at, str_at, and_then, or_else}
use claude_code_aws_gateway.Scim.Groups.{
  Response, ok, created, no_content, bad_request, not_found, conflict, internal, ScimPatchOp,
  required_name,
}
use claude_code_aws_gateway.Scim.Users.{
  User, is_known, Users, Draft, draft_of, scoped, is_taken, update_scim_user,
}
use claude_code_aws_gateway.Scim.Users.Patch.{parse_bool_value, apply_ops}

abbrev pub updated : Option (Option Users) → Users → Response × Users
updated none users = (internal, users)
updated (some none) users = (not_found, users)
updated (some (some next)) users = (ok, next)

module _ (lowercase : Text → Text) where
  abbrev pub patched : ℕ → Option Draft → Users → Response × Users
  patched id none users = (bad_request, users)
  patched id (some d) users = updated (update_scim_user id d users) users

  unfoldable pub patch_user : ℕ → ℕ → List ScimPatchOp → Users → Response × Users
  unfolding apply_ops update_scim_user lookup
  patch_user idp id ops users = elim (scoped idp (lookup id users)) [
    | none ↦ (not_found, users)
    | some u ↦ patched id (apply_ops lowercase ops (draft_of u)) users
  ]

  -- A value that is not boolean is read as true.
  abbrev pub active_of : Option Json → Bool
  active_of none = true
  active_of (some v) = or_else (parse_bool_value lowercase v) true

  abbrev pub draft_from : Text → Json → Draft
  draft_from email body = record {
    email = email;
    external_id = str_at (codes "externalId") body;
    display_name = str_at (codes "displayName") body;
    given_name = and_then (at (codes "name") body) (str_at (codes "givenName"));
    family_name = and_then (at (codes "name") body) (str_at (codes "familyName"));
    active = active_of (at (codes "active") body);
  }

  unfoldable pub replace_user : ℕ → ℕ → Json → Users → Response × Users
  unfolding parse_bool_value at str_at update_scim_user lookup
  replace_user idp id body users = elim (scoped idp (lookup id users)) [
    | none ↦ (not_found, users)
    | some u ↦ elim (required_name (str_at (codes "userName") body)) [
      | none ↦ (bad_request, users)
      | some email ↦ updated (update_scim_user id (draft_from email body) users) users
    ]
  ]

  abbrev pub new_user : ℕ → Text → Draft → User
  new_user idp role d = record {
    email = d.email;
    role = role;
    active = true;
    external_id = d.external_id;
    display_name = d.display_name;
    given_name = d.given_name;
    family_name = d.family_name;
    scim_managed = true;
    idp_id = some idp;
  }

  -- `INSERT`, which a unique index may refuse.
  abbrev pub create_scim_user : ℕ → Text → ℕ → Draft → Users → Response × Users
  create_scim_user idp role fresh d users =
      if is_taken fresh d.email d.external_id users
      then (internal, users)
      else (created, insert fresh (new_user idp role d) users)

  -- The id of a new user comes from the database, the role is the default one of the provider.
  unfoldable pub create_user : ℕ → Text → ℕ → Json → Users → Response × Users
  unfolding at str_at is_known is_taken insert parse_bool_value
  create_user idp role fresh body users = elim (required_name (str_at (codes "userName") body)) [
    | none ↦ (bad_request, users)
    | some email ↦
        let d = draft_from email body in
        if is_known idp email d.external_id users
        then (conflict, users)
        else create_scim_user idp role fresh d users
  ]

-- A user is deleted by making it inactive.
unfoldable pub delete_user : ℕ → ℕ → Users → Response × Users
unfolding lookup insert
delete_user idp id users = elim (scoped idp (lookup id users)) [
  | none ↦ (not_found, users)
  | some u ↦ (no_content, insert id (record u { active = false }) users)
]

pub data Call : Type 0 where
  create : Text → ℕ → Json → Call
  replace : ℕ → Json → Call
  patch : ℕ → List ScimPatchOp → Call
  delete : ℕ → Call

unfoldable pub handle : (Text → Text) → ℕ → Call → Users → Response × Users
unfolding create_user replace_user patch_user delete_user
handle lowercase idp (create role fresh body) users =
    create_user lowercase idp role fresh body users
handle lowercase idp (replace id body) users = replace_user lowercase idp id body users
handle lowercase idp (patch id ops) users = patch_user lowercase idp id ops users
handle lowercase idp (delete id) users = delete_user idp id users
