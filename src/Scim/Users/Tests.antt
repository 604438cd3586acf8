-- ===== src/Scim/Users/Tests.antt =====
-- src/scim/users.rs on small examples.
use claude_code_aws_gateway.Prelude.{true, false, ◌≡◌, refl, ◌⊎◌, none, some, [], ◌∷◌, ◌++◌, nat_eq}
use claude_code_aws_gateway.Prelude.Text.{codes, text_beq, to_lower}
use claude_code_aws_gateway.Prelude.Assoc.{lookup, map_option}
use claude_code_aws_gateway.Json.{Json, string, object, end, field}
use claude_code_aws_gateway.Scim.Groups.{bad_request, internal, ScimPatchOp, is_success}
use claude_code_aws_gateway.Scim.Users.{User, Users, is_in_scope, draft_of}
use claude_code_aws_gateway.Scim.Users.Patch.{parse_bool_value, remove_field, work_email}
use claude_code_aws_gateway.Scim.Users.Requests.{delete, handle, patch_user, create_user}
use claude_code_aws_gateway.Scim.Users.Confined.{target, handle-IsConfined}
use claude_code_aws_gateway.Scim.Users.Deactivation.{switch_off, patch-inactive}

abbrev ann : User
ann = record {
  email = codes "ann@x";
  role = codes "member";
  active = true;
  external_id = none;
  display_name = some (codes "Ann");
  given_name = none;
  family_name = none;
  scim_managed = true;
  idp_id = some 1;
}

abbrev bob : User
bob = record ann { email = codes "bob@x"; idp_id = some 2 }

abbrev users : Users
users = (7, ann) ∷ (8, bob) ∷ []

abbrev rename : ScimPatchOp
rename = record {
  op = codes "Replace";
  path = some (codes "displayName");
  value = some (string (codes "A"));
}

-- An external id of another provider is not known to the check, and is refused by the index.
abbrev entry : Json
entry = object (
    field (codes "externalId") (string (codes "x"))
      (field (codes "userName") (string (codes "new@x")) end))

clash :
    (create_user to_lower 1
      (codes "member")
      9
      entry
      ((8, record bob { external_id = some (codes "x") }) ∷ [])).0
    ≡ internal
unfolding create_user to_lower text_beq
clash = refl

-- An operation that removes needs a value too.
abbrev remove_name : ScimPatchOp
remove_name = record { op = codes "remove"; path = some (codes "displayName"); value = none }

no_value : (patch_user to_lower 1 7 (remove_name ∷ []) users).0 ≡ bad_request
unfolding patch_user to_lower
no_value = refl

-- The path of the email removes the display name.
wrong_field : map_option (λ d. d.display_name) (remove_field work_email (draft_of ann)) ≡ some none
unfolding remove_field text_beq
wrong_field = refl

handle-IsConfined_example :
    (lookup 8 (handle to_lower 1 (delete 8) users).1 ≡ some bob)
    ⊎ ((is_success (handle to_lower 1 (delete 8) users).0 ≡ true)
        × (target (delete 8) ≡ 8)
        × (is_in_scope 1 bob ≡ true))
unfolding lookup
handle-IsConfined_example = handle-IsConfined to_lower 1 8 users bob (delete 8) refl tt

patch-inactive_example :
    map_option
      (λ (u : User). u.active)
      (lookup 7
        (patch_user to_lower 1 7
          ((rename ∷ []) ++ switch_off to_lower (codes "Replace") (string (codes "False")) ∷ [])
          users).1)
    ≡ some false
unfolding patch_user to_lower lookup is_success parse_bool_value text_beq
patch-inactive_example =
    patch-inactive to_lower 1 7 (rename ∷ []) (codes "Replace") (string (codes "False")) users refl
      refl refl
