-- ===== src/Endpoint/Capability/Tests.antt =====
-- The theorems about the capability cache of src/endpoint/mod.rs, at concrete caches.
use claude_code_aws_gateway.Prelude.{
  inl, inr, ◌+◌, ◌≡◌, refl, true, false, some, List, [], ◌∷◌, pair_eq,
}
use claude_code_aws_gateway.Prelude.Text.{
  Text, codes, text_eq, text_beq, contains, to_lower, split_at, starts_with,
}
use claude_code_aws_gateway.Endpoint.Capability.{
  admin_override, request_success, Capabilities, capability_ttl, is_beta_supported, mark_supported,
  inconclusive, unsupported, classify_probe_outcome, parse_rejected_betas,
}
use claude_code_aws_gateway.Endpoint.Capability.Laws.{
  override_sticks, Change, marks, probes, forgets, changes,
}

abbrev opus : Text
opus = codes "opus"

abbrev sonnet : Text
sonnet = codes "sonnet"

abbrev wide : Text
wide = codes "context-1m-2025-08-07"

abbrev learned : Capabilities
learned =
    ((opus, wide), record { supported = false; learned_at = 0; source = request_success }) ∷ []

abbrev later_changes : List Change
later_changes =
    marks false 6 opus wide request_success
    ∷ probes 7 opus wide unsupported
    ∷ forgets sonnet wide
    ∷ marks false 8 sonnet wide admin_override
    ∷ []

override_sticks_example :
    is_beta_supported
      (9 + capability_ttl)
      opus
      wide
      (changes later_changes (mark_supported 5 opus wide admin_override learned))
    ≡ some true
override_sticks_example =
    override_sticks 5 (9 + capability_ttl) true opus wide later_changes learned
      unfold text_beq in (inl refl, (tt, (refl, (inr refl, tt))))

rejection :
    classify_probe_outcome false true (codes "Beta Context-1M-2025-08-07 is not supported") wide
    ≡ unsupported
unfolding classify_probe_outcome contains to_lower split_at starts_with
rejection = refl

throttling : classify_probe_outcome false false (codes "Too many requests") wide ≡ inconclusive
unfolding classify_probe_outcome
throttling = refl

blamed :
    parse_rejected_betas (codes "invalid beta NEW") (wide ∷ codes "new" ∷ []) ≡ codes "new" ∷ []
unfolding parse_rejected_betas contains to_lower split_at starts_with
blamed = refl
