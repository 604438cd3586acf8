-- ===== src/Endpoint/Capability/Filter.antt =====
-- The seed probe of src/endpoint/mod.rs and the beta filter of src/translate/betas.rs, against what
-- the capability cache answers.
use claude_code_aws_gateway.Prelude.{
  ℕ, ◌≡◌, refl, Bool, true, false, not, Option, none, some, List, [], ◌∷◌, ◌++◌, map, arith, retain,
  retain-append, pair_eq,
}
use claude_code_aws_gateway.Prelude.Text.{Text, text_eq}
use claude_code_aws_gateway.Prelude.Assoc.{lookup}
use claude_code_aws_gateway.Endpoint.Capability.{
  CapabilityEntry, Capabilities, suffix_betas, current, is_beta_supported, needs_probe, seed_pairs,
  expired_seed_pairs, filter_betas_by_cache,
}

abbrev pub is_unknown : Option Bool → Bool
is_unknown none = true
is_unknown (some _) = false

abbrev pub is_rejected : Option Bool → Bool
is_rejected (some v) = not v
is_rejected none = false

-- Every profile with every beta that the gateway advertises by a suffix.
abbrev pub all_pairs : List Text → List (Text × Text)
all_pairs [] = []
all_pairs (profile ∷ profiles) = map (λ beta. (profile, beta)) suffix_betas ++ all_pairs profiles

needs_probe-current :
    (now : ℕ) (o : Option CapabilityEntry) → needs_probe now o ≡ is_unknown (current now o)
needs_probe-current now none = refl
needs_probe-current now (some e) = ground arith

module _ (now : ℕ) (m : Capabilities) where
  abbrev pub unknown_pair : Text × Text → Bool
  unknown_pair (p, b) = is_unknown (is_beta_supported now p b m)

  seed_pairs-retain :
      (profile : Text) (betas : List Text)
      → seed_pairs now profile betas m ≡ retain unknown_pair (map (λ b. (profile, b)) betas)
  unfolding is_beta_supported
  seed_pairs-retain profile [] = refl
  seed_pairs-retain profile (b ∷ betas) =
      rw (needs_probe-current now (lookup (profile, b) m), seed_pairs-retain profile betas)

  -- The health loop probes exactly the pairs for which the cache has no answer: those never learned
  -- and those whose answer has expired, and never one under an admin override.
  pub seeds_unknown :
      (profiles : List Text)
      → expired_seed_pairs now profiles m ≡ retain unknown_pair (all_pairs profiles)
  unfolding expired_seed_pairs
  seeds_unknown [] = refl
  seeds_unknown (profile ∷ profiles) = cc (
    seed_pairs-retain profile suffix_betas,
    seeds_unknown profiles,
    retain-append unknown_pair (map (λ b. (profile, b)) suffix_betas) (all_pairs profiles),
  )

  -- The filter forwards a beta unless the cache says that it is not supported, in the order of the
  -- request; it drops exactly the others, and marks as unknown those without an answer.
  pub filter_betas_lem :
      (profile : Text) (incoming : List Text)
      → let r = filter_betas_by_cache now profile incoming m in
        (r.kept ≡ retain (λ b. not (is_rejected (is_beta_supported now profile b m))) incoming)
        × (r.dropped ≡ retain (λ b. is_rejected (is_beta_supported now profile b m)) incoming)
        × (r.unknown ≡ retain (λ b. is_unknown (is_beta_supported now profile b m)) incoming)
  unfolding filter_betas_by_cache
  filter_betas_lem profile [] = (refl, refl, refl)
  filter_betas_lem profile (b ∷ incoming) = ground (arith, filter_betas_lem profile incoming)
