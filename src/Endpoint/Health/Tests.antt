-- ===== src/Endpoint/Health/Tests.antt =====
-- The theorems about the health of an endpoint in src/endpoint/mod.rs, at concrete profiles.
use claude_code_aws_gateway.Prelude.{
  ◌≡◌, refl, false, Option, none, some, [], ◌∷◌, All, ◌==◌, if◌then◌else◌,
}
use claude_code_aws_gateway.Prelude.Elem.{Elem}
use claude_code_aws_gateway.Prelude.Text.{
  Text, codes, text_eq, text_beq, split_at, starts_with, ends_with, trim, trim_start, trim_end,
  eq_ignore_case, to_lower,
}
use claude_code_aws_gateway.Endpoint.Capability.{supports_model}
use claude_code_aws_gateway.Endpoint.Health.{
  seed, resolve, add_overrides, is_covered, parse_foundation_model_from_arn, compute_health_state,
  should_probe_profile, effective_capability_probe_aip,
}
use claude_code_aws_gateway.Endpoint.Health.Union.{Resolves, health_union}

-- Two inference profiles and what they stand for.
abbrev bedrock : Text → Option Text
bedrock arn =
    if arn == codes "a"
    then some (codes "x:foundation-model/new")
    else if arn == codes "b"
    then some (codes "x:foundation-model/old-1")
    else none

abbrev old_id : Text
old_id = codes "us.old"

abbrev new_id : Text
new_id = codes "us.new"

health_union_example :
    ((m : Text) → Elem m (old_id ∷ []) → Elem m (old_id ∷ new_id ∷ []))
    × (old_id ∷ new_id ∷ [] ≡ old_id ∷ new_id ∷ [])
    × All (Resolves bedrock (codes "us") (old_id ∷ new_id ∷ [])) (codes "a" ∷ codes "b" ∷ [])
unfolding compute_health_state add_overrides seed resolve is_covered parse_foundation_model_from_arn
    split_at starts_with text_beq
health_union_example =
    health_union bedrock (codes "us") (old_id ∷ []) (codes "a") (codes "b" ∷ []) none refl

-- The id of a minor version counts as covered by that of its major version, and is not offered.
minor_hidden :
    let h = compute_health_state bedrock (codes "us") (some (old_id ∷ [])) (codes "b" ∷ []) none in
    supports_model h.available_models (codes "old-1") ≡ false
unfolding compute_health_state add_overrides seed resolve is_covered parse_foundation_model_from_arn
    split_at starts_with text_beq supports_model ends_with
minor_hidden = refl

derived_skipped : should_probe_profile new_id (new_id ∷ []) false ≡ false
unfolding should_probe_profile text_beq
derived_skipped = refl

malformed_setting :
    effective_capability_probe_aip (some (codes "maybe")) (some (codes " False ")) ≡ false
unfolding effective_capability_probe_aip trim trim_start trim_end eq_ignore_case to_lower text_beq
malformed_setting = refl
