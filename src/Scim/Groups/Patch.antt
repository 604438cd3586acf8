-- ===== src/Scim/Groups/Patch.antt =====
-- The operations of `patch_group` in src/scim/groups.rs on the group `id`, whose fields are gathered
-- while the rows of the members are changed at once.
pub mod Noted
pub mod Operations
use claude_code_aws_gateway.Prelude.{
  ℕ, Bool, true, false, ◌||◌, Option, none, some, List, [], ◌∷◌, ◌==◌, if◌then◌else◌,
}
use claude_code_aws_gateway.Prelude.Text.{Text, codes, text_eq}
use claude_code_aws_gateway.Json.{Json, Fields, end, field}
use claude_code_aws_gateway.Json.Access.{as_str, as_object, or_else}
use claude_code_aws_gateway.Scim.Groups.{
  Response, bad_request, internal, ScimPatchOp, Patched, Step, go, fail, then_step,
  extract_member_ids, extract_member_id_from_path,
}
use claude_code_aws_gateway.Scim.Groups.Membership.{
  Members, remove_member, set_members, add_members, members_of, track, track_all,
}

abbrev pub put_name : Option Text → Patched → Step
put_name none p = fail bad_request p.members
put_name (some name) p = go (record p { name = name })

abbrev pub put_field : Text → Json → Patched → Step
put_field k v p =
    if k == codes "displayName"
    then put_name (as_str v) p
    else if k == codes "externalId"
    then go (record p { external_id = as_str v })
    else go p

unfoldable pub put_fields : Fields → Patched → Step
put_fields end p = go p
put_fields (field k v fs) p = then_step (put_field k v p) (put_fields fs)

abbrev pub put_object : Option Fields → Patched → Step
put_object none p = fail bad_request p.members
put_object (some fs) p = put_fields fs p

-- The members that were removed one by one.
unfoldable pub remove_each : ℕ → List ℕ → Patched → Patched
unfolding remove_member track
remove_each id [] p = p
remove_each id (u ∷ us) p =
    remove_each id us
      (record p { members = remove_member id u p.members; users_to_sync = track u p.users_to_sync })

abbrev pub added : List ℕ → Bool × Members → Patched → Step
added ids (false, ms) p = fail internal ms
added ids (true, ms) p =
    go (record p { members = ms; users_to_sync = track_all ids p.users_to_sync })

abbrev pub remove_listed : ℕ → Option (List ℕ) → Patched → Step
remove_listed id none p = fail bad_request p.members
remove_listed id (some ids) p = go (remove_each id ids p)

module _ (is_user : ℕ → Bool) (id : ℕ) where
  abbrev pub replaced : List ℕ → Option Members → Patched → Step
  replaced ids none p = fail internal p.members
  replaced ids (some ms) p = go (record p {
    members = ms;
    users_to_sync = track_all ids (track_all (members_of is_user id p.members) p.users_to_sync);
  })

  abbrev pub cleared : Option Members → Patched → Step
  cleared none p = fail internal p.members
  cleared (some ms) p = go (record p {
    members = ms;
    users_to_sync = track_all (members_of is_user id p.members) p.users_to_sync;
  })

  abbrev pub put_members : Bool → Option (List ℕ) → Patched → Step
  put_members is_replace none p = fail bad_request p.members
  put_members true (some ids) p = replaced ids (set_members is_user id ids p.members) p
  put_members false (some ids) p = added ids (add_members is_user id ids p.members) p

module _ (parse_uuid : Text → Option ℕ) (is_user : ℕ → Bool) (id : ℕ) where
  -- `replace` and `add`
  unfoldable pub put_op : Bool → Text → Option Json → Patched → Step
  unfolding put_fields set_members add_members members_of track_all extract_member_ids
  put_op is_replace path none p =
      if path == []
        || (path == codes "displayName" || (path == codes "externalId" || path == codes "members"))
      then fail bad_request p.members
      else go p
  put_op is_replace path (some value) p =
      if path == []
      then put_object (as_object value) p
      else if path == codes "displayName"
      then put_name (as_str value) p
      else if path == codes "externalId"
      then go (record p { external_id = as_str value })
      else if path == codes "members"
      then put_members is_user id is_replace (extract_member_ids parse_uuid value) p
      else go p

  abbrev pub remove_some : Option Json → Patched → Step
  remove_some none p = cleared is_user id (set_members is_user id [] p.members) p
  remove_some (some value) p = remove_listed id (extract_member_ids parse_uuid value) p

  abbrev pub remove_at : Option ℕ → Text → Option Json → Patched → Step
  remove_at (some u) path value p = go (remove_each id (u ∷ []) p)
  remove_at none path value p = if path == codes "members" then remove_some value p else go p

  -- `remove`
  unfoldable pub remove_op : Text → Option Json → Patched → Step
  unfolding remove_each set_members members_of track_all extract_member_ids
      extract_member_id_from_path
  remove_op path value p = remove_at (extract_member_id_from_path parse_uuid path) path value p

module _ (parse_uuid : Text → Option ℕ) (is_user : ℕ → Bool) (id : ℕ)
    (lowercase : Text → Text) where
  unfoldable pub apply_op : ScimPatchOp → Patched → Step
  unfolding put_op remove_op
  apply_op op p =
      let kind = lowercase op.op in
      let path = or_else op.path [] in
      if kind == codes "replace" || kind == codes "add"
      then put_op parse_uuid is_user id (kind == codes "replace") path op.value p
      else if kind == codes "remove"
      then remove_op parse_uuid is_user id path op.value p
      else fail bad_request p.members

  unfoldable pub apply_ops : List ScimPatchOp → Patched → Step
  unfolding apply_op
  apply_ops [] p = go p
  apply_ops (op ∷ ops) p = then_step (apply_op op p) (apply_ops ops)
