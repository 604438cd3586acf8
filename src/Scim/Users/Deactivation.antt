-- ===== src/Scim/Users/Deactivation.antt =====
-- How a provider takes the access of a user away, by src/scim/users.rs.
use claude_code_aws_gateway.Prelude.{
  ℕ, true, false, ◌≡◌, refl, ap, ◌∙◌, inl, inr, some, List, [], ◌∷◌, ◌++◌, nat_eq, arith, beq_self,
  Bool-cases, Option-cases,
}
use claude_code_aws_gateway.Prelude.Text.{Text, codes, text_eq, text_beq}
use claude_code_aws_gateway.Prelude.Assoc.{lookup, lookup-insert, map_option}
use claude_code_aws_gateway.Json.{Json}
use claude_code_aws_gateway.Json.Access.{and_then}
use claude_code_aws_gateway.Scim.Groups.{bad_request, not_found, internal, is_success, ScimPatchOp}
use claude_code_aws_gateway.Scim.Users.{
  User, Users, Draft, draft_of, with_draft, scoped, is_taken, update_scim_user,
}
use claude_code_aws_gateway.Scim.Users.Patch.{
  parse_bool_value, apply_patch_field, apply_op, apply_ops,
}
use claude_code_aws_gateway.Scim.Users.Requests.{patched, patch_user}

module _ (lowercase : Text → Text) where
  apply_ops-snoc :
      (ops : List ScimPatchOp) (op : ScimPatchOp) (d : Draft)
      → apply_ops lowercase (ops ++ op ∷ []) d
        ≡ and_then (apply_ops lowercase ops d) (apply_op lowercase op)
  unfolding apply_ops
  apply_ops-snoc [] op d = elim (Option-cases (apply_op lowercase op d)) [
    | inl e ↦ rw e refl
    | inr (next, e) ↦ rw e refl
  ]
  apply_ops-snoc (first ∷ ops) op d = elim (Option-cases (apply_op lowercase first d)) [
    | inl e ↦ rw e refl
    | inr (next, e) ↦ rw e (apply_ops-snoc ops op next)
  ]

  abbrev pub switch_off : Text → Json → ScimPatchOp
  switch_off kind v = record { op = kind; path = some (codes "active"); value = some v }

  apply_op-switch_off :
      (kind : Text) (v : Json) (d : Draft)
      → lowercase kind ≡ codes "replace"
      → parse_bool_value lowercase v ≡ some false
      → apply_op lowercase (switch_off kind v) d ≡ some (record d { active = false })
  unfolding apply_op apply_patch_field text_beq
  apply_op-switch_off kind v d named off = rw (named, off) refl

  patched-inactive :
      (id : ℕ) (d : Draft) (users : Users)
      → d.active ≡ false
      → is_success (patched lowercase id (some d) users).0 ≡ true
      → map_option (λ (u : User). u.active) (lookup id (patched lowercase id (some d) users).1)
        ≡ some false
  unfolding update_scim_user is_success
  patched-inactive id d users off s = elim (Option-cases (lookup id users)) [
    | inl e ↦ (let f : is_success not_found ≡ true = rw (e, update_scim_user) at s in ground arith)
    | inr (row, e) ↦ elim (Bool-cases (is_taken id d.email d.external_id users)) [
      | inl t ↦
          (let f : is_success internal ≡ true = rw (e, t, update_scim_user) at s in ground arith)
      | inr t ↦
          rw (e, t, update_scim_user)
            (ap (map_option (λ (u : User). u.active)) (lookup-insert id id (with_draft d row) users)
              ∙ rw (beq_self id) (ap some off))
    ]
  ]

  -- A patch whose last operation replaces the attribute `active` by false, as a boolean or as a
  -- text, leaves the user inactive when it succeeds, whatever its other operations are.
  pub patch-inactive :
      (idp id : ℕ) (ops : List ScimPatchOp) (kind : Text) (v : Json) (users : Users)
      → lowercase kind ≡ codes "replace"
      → parse_bool_value lowercase v ≡ some false
      → is_success (patch_user lowercase idp id (ops ++ switch_off kind v ∷ []) users).0 ≡ true
      → map_option
          (λ (u : User). u.active)
          (lookup id (patch_user lowercase idp id (ops ++ switch_off kind v ∷ []) users).1)
        ≡ some false
  unfolding patch_user is_success
  patch-inactive idp id ops kind v users named off s =
      elim (Option-cases (scoped idp (lookup id users))) [
        | inl e ↦ (let f : is_success not_found ≡ true = rw (e, patch_user) at s in ground arith)
        | inr (u, e) ↦
            let all = apply_ops-snoc ops (switch_off kind v) (draft_of u) in
            elim (Option-cases (apply_ops lowercase ops (draft_of u))) [
              | inl g ↦
                  let none_left = rw g at all in
                  (let f : is_success bad_request ≡ true = rw (e, none_left, patch_user) at s in
                    ground arith)
              | inr (d, g) ↦
                  let last = (rw g at all) ∙ apply_op-switch_off kind v d named off in
                  rw (e, last, patch_user)
                    (patched-inactive id (record d { active = false }) users refl
                      (rw (e, last, patch_user) at s))
            ]
      ]
