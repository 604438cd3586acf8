-- ===== src/Scim/Users/Patch.antt =====
-- The operations of `patch_user` in src/scim/users.rs, on the columns that a request may set.
use claude_code_aws_gateway.Prelude.{
  Bool, true, false, ◌||◌, Option, none, some, List, [], ◌∷◌, nat_eq, ◌==◌, if◌then◌else◌,
}
use claude_code_aws_gateway.Prelude.Text.{Text, codes, text_eq}
use claude_code_aws_gateway.Json.{Json, Fields, end, field, get}
use claude_code_aws_gateway.Json.Access.{as_str, as_bool, as_object, and_then, or_else}
use claude_code_aws_gateway.Scim.Groups.{ScimPatchOp}
use claude_code_aws_gateway.Scim.Users.{Draft}

abbrev pub set_name : Option Fields → Draft → Draft
set_name none d = d
set_name (some fs) d =
    let given : Option Text = elim (get (codes "givenName") fs) [
      | none ↦ d.given_name
      | some v ↦ as_str v
    ] in
    let family : Option Text = elim (get (codes "familyName") fs) [
      | none ↦ d.family_name
      | some v ↦ as_str v
    ] in
    record d { given_name = given; family_name = family }

abbrev pub set_email : Option Text → Draft → Option Draft
set_email none d = none
set_email (some e) d = some (record d { email = e })

abbrev pub set_active : Option Bool → Draft → Option Draft
set_active none d = none
set_active (some b) d = some (record d { active = b })

abbrev pub work_email : Text
work_email = codes "emails[type eq \"work\"].value"

unfoldable pub remove_field : Text → Draft → Option Draft
remove_field path d =
    if path == codes "active"
    then some d
    else if path == codes "userName"
    then none
    else if path == codes "displayName" || path == work_email
    then some (record d { display_name = none })
    else if path == codes "name.givenName"
    then some (record d { given_name = none })
    else if path == codes "name.familyName"
    then some (record d { family_name = none })
    else if path == codes "externalId"
    then some (record d { external_id = none })
    else some d

module _ (lowercase : Text → Text) where
  abbrev pub bool_of : Option Text → Option Bool
  bool_of none = none
  bool_of (some s) =
      if lowercase s == codes "true"
      then some true
      else if lowercase s == codes "false"
      then some false
      else none

  unfoldable pub parse_bool_value : Json → Option Bool
  parse_bool_value v = elim (as_bool v) [ none ↦ bool_of (as_str v) | some b ↦ some b ]

  -- Nothing is a bad request.
  unfoldable pub apply_patch_field : Text → Json → Draft → Option Draft
  unfolding parse_bool_value get
  apply_patch_field key v d =
      if key == codes "active"
      then set_active (parse_bool_value v) d
      else if key == codes "userName" || key == work_email
      then set_email (as_str v) d
      else if key == codes "displayName"
      then some (record d { display_name = as_str v })
      else if key == codes "name.givenName"
      then some (record d { given_name = as_str v })
      else if key == codes "name.familyName"
      then some (record d { family_name = as_str v })
      else if key == codes "externalId"
      then some (record d { external_id = as_str v })
      else if key == codes "name"
      then some (set_name (as_object v) d)
      else none

  unfoldable pub apply_patch_fields : Fields → Draft → Option Draft
  unfolding apply_patch_field
  apply_patch_fields end d = some d
  apply_patch_fields (field k v fs) d = and_then (apply_patch_field k v d) (apply_patch_fields fs)

  abbrev pub apply_object : Option Fields → Draft → Option Draft
  apply_object none d = none
  apply_object (some fs) d = apply_patch_fields fs d

  abbrev pub apply_valued : Text → Text → Json → Draft → Option Draft
  apply_valued kind path v d =
      if kind == codes "add" || kind == codes "replace"
      then if path == [] then apply_object (as_object v) d else apply_patch_field path v d
      else if kind == codes "remove"
      then remove_field path d
      else none

  -- Every operation needs a value.
  unfoldable pub apply_op : ScimPatchOp → Draft → Option Draft
  unfolding apply_patch_fields apply_patch_field remove_field
  apply_op op d = and_then op.value (λ v. apply_valued (lowercase op.op) (or_else op.path []) v d)

  unfoldable pub apply_ops : List ScimPatchOp → Draft → Option Draft
  unfolding apply_op
  apply_ops [] d = some d
  apply_ops (op ∷ ops) d = and_then (apply_op op d) (apply_ops ops)
