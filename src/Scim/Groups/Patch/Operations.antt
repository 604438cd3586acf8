-- ===== src/Scim/Groups/Patch/Operations.antt =====
-- A whole patch of a group notes every user whose membership it changes.
use claude_code_aws_gateway.Prelude.{ℕ, Bool, ◌||◌, Option, none, some, List, [], ◌∷◌, ◌==◌}
use claude_code_aws_gateway.Prelude.Text.{Text, codes, text_eq}
use claude_code_aws_gateway.Json.{Json}
use claude_code_aws_gateway.Json.Access.{as_str, as_object, or_else}
use claude_code_aws_gateway.Scim.Groups.{
  ScimPatchOp, Patched, extract_member_ids, extract_member_id_from_path,
}
use claude_code_aws_gateway.Scim.Groups.Membership.{Members}
use claude_code_aws_gateway.Scim.Groups.Patch.{
  put_op, remove_listed, remove_some, remove_at, remove_op, apply_op, apply_ops,
}
use claude_code_aws_gateway.Scim.Groups.Patch.Noted.{
  IsNoted, Ends, either-Ends, then_step-Ends, refused, fields-IsNoted, put_name-Ends,
  put_object-Ends, put_members-Ends, remove_each-IsNoted, cleared-Ends,
}

module _ (parse_uuid : Text → Option ℕ) (is_user : ℕ → Bool) (id u : ℕ) (base : Members) where
  put-Ends :
      (is_replace : Bool) (path : Text) (value : Option Json) (p : Patched)
      → IsNoted is_user id u base p
      → Ends is_user id u base (put_op parse_uuid is_user id is_replace path value p)
  unfolding put_op Ends
  put-Ends is_replace path none p n =
      either-Ends is_user id u base
        (path == []
          || (path == codes "displayName"
              || (path == codes "externalId" || path == codes "members")))
        _ _ (refused is_user id u base p n) n
  put-Ends is_replace path (some v) p n =
      either-Ends is_user id u base (path == []) _ _
        (put_object-Ends is_user id u base (as_object v) p n)
        (either-Ends is_user id u base (path == codes "displayName") _ _
          (put_name-Ends is_user id u base (as_str v) p n)
          (either-Ends is_user id u base (path == codes "externalId") _ _
            (fields-IsNoted is_user id u base p p.name (as_str v) n)
            (either-Ends is_user id u base (path == codes "members") _ _
              (put_members-Ends is_user id u base is_replace (extract_member_ids parse_uuid v) p n)
              n)))

  remove_listed-Ends :
      (o : Option (List ℕ)) (p : Patched)
      → IsNoted is_user id u base p
      → Ends is_user id u base (remove_listed id o p)
  unfolding Ends
  remove_listed-Ends none p n = refused is_user id u base p n
  remove_listed-Ends (some us) p n = remove_each-IsNoted is_user id u base us p n

  remove_some-Ends :
      (o : Option Json) (p : Patched)
      → IsNoted is_user id u base p
      → Ends is_user id u base (remove_some parse_uuid is_user id o p)
  remove_some-Ends none p n = cleared-Ends is_user id u base p n
  remove_some-Ends (some v) p n = remove_listed-Ends (extract_member_ids parse_uuid v) p n

  remove_at-Ends :
      (o : Option ℕ) (path : Text) (value : Option Json) (p : Patched)
      → IsNoted is_user id u base p
      → Ends is_user id u base (remove_at parse_uuid is_user id o path value p)
  unfolding Ends
  remove_at-Ends (some v) path value p n = remove_each-IsNoted is_user id u base (v ∷ []) p n
  remove_at-Ends none path value p n =
      either-Ends is_user id u base (path == codes "members") _ _ (remove_some-Ends value p n) n

  module _ (lowercase : Text → Text) where
    apply_op-Ends :
        (op : ScimPatchOp) (p : Patched)
        → IsNoted is_user id u base p
        → Ends is_user id u base (apply_op parse_uuid is_user id lowercase op p)
    unfolding apply_op remove_op
    apply_op-Ends op p n =
        let kind = lowercase op.op in
        let path = or_else op.path [] in
        either-Ends is_user id u base (kind == codes "replace" || kind == codes "add") _ _
          (put-Ends (kind == codes "replace") path op.value p n)
          (either-Ends is_user id u base (kind == codes "remove") _ _
            (remove_at-Ends (extract_member_id_from_path parse_uuid path) path op.value p n)
            (refused is_user id u base p n))

    pub apply_ops-Ends :
        (ops : List ScimPatchOp) (p : Patched)
        → IsNoted is_user id u base p
        → Ends is_user id u base (apply_ops parse_uuid is_user id lowercase ops p)
    unfolding apply_ops
    apply_ops-Ends [] p n = unfold Ends in n
    apply_ops-Ends (op ∷ ops) p n =
        then_step-Ends is_user id u base (apply_op parse_uuid is_user id lowercase op p)
          (apply_ops parse_uuid is_user id lowercase ops) (apply_op-Ends op p n)
          (apply_ops-Ends ops)
