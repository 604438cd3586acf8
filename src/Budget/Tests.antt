-- ===== src/Budget/Tests.antt =====
-- The policies and the cache of src/budget/mod.rs on concrete inputs.
use claude_code_aws_gateway.Prelude.{
  ℕ, ◌≤◌, ◌≡◌, ◌↔◌, refl, true, List, [], ◌∷◌, none, some, arith, string_eq,
}
use claude_code_aws_gateway.Prelude.Float.{whole}
use claude_code_aws_gateway.Budget.{
  notify, shape, block, rule, notified, shaped, preset_shaped, validate_policy, ok, err,
  shape_without_rpm, block_not_last, evaluate, severity, percent_of, triggered,
}
use claude_code_aws_gateway.Budget.Validation.{IsValidPolicy, validate_policy_iff}
use claude_code_aws_gateway.Budget.Evaluation.{evaluate_relaxes, evaluate_mono}
use claude_code_aws_gateway.Budget.Cache.{
  CacheCall, set_user, set_team, clean, cache_run, new_cache, get_user_spend, get_team_spend,
  cleanup, cleanup_invisible,
}

shape_needs_rpm : validate_policy (rule 80 shape none ∷ []) ≡ err (shape_without_rpm 0 80)
unfolding validate_policy
shape_needs_rpm = refl

block_must_be_last :
    validate_policy (rule 80 block none ∷ rule 90 notify none ∷ []) ≡ err block_not_last
unfolding validate_policy
block_must_be_last = refl

shaped_at_half_over : evaluate whole preset_shaped 3 2 ≡ shaped 100 5
unfolding evaluate
shaped_at_half_over = refl

validate_policy_iff_example : (validate_policy preset_shaped ≡ ok) ↔ IsValidPolicy preset_shaped
validate_policy_iff_example = validate_policy_iff preset_shaped

evaluate_relaxes_example :
    let rules = rule 50 shape (some 5) ∷ rule 80 notify none ∷ [] in
    (validate_policy rules ≡ ok)
    × (triggered whole (percent_of whole 2 2) (rule 50 shape (some 5)) ≡ true)
    × (evaluate whole rules 2 2 ≡ notified 80)
evaluate_relaxes_example = evaluate_relaxes whole 50 80 5 2 2 (omega arith) (omega arith) refl refl

evaluate_mono_example :
    severity (evaluate whole preset_shaped 2 2) ≤ severity (evaluate whole preset_shaped 5 2)
unfolding severity
evaluate_mono_example =
    evaluate_mono whole preset_shaped 2 5 2 (omega arith)
      ((λ _. refl), ((λ _. refl), ((λ _. refl), tt)))

abbrev calls : List (CacheCall ℕ)
calls = set_user 5 "ann" 12 ∷ set_team 6 3 40 ∷ clean 7 ∷ []

cleanup_invisible_example :
    let c = cache_run calls (new_cache ℕ 30) in
    (get_user_spend 9 "ann" (cleanup 8 c) ≡ get_user_spend 9 "ann" c)
    × (get_team_spend 9 3 (cleanup 8 c) ≡ get_team_spend 9 3 c)
cleanup_invisible_example = cleanup_invisible 30 calls 8 9 "ann" 3 (omega arith)
