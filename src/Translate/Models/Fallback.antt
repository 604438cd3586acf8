-- ===== src/Translate/Models/Fallback.antt =====
-- `lookup_forward_with_fallback` of src/translate/models.rs: which cached mapping answers for an id.
use mathlib.Core.Logic.{◌↔◌}
use claude_code_aws_gateway.Prelude.{
  ◌≡◌, ◌⊎◌, inl, inr, refl, sym, ap, ◌∙◌, true, false, not, ◌&&◌, Option, none, some, ◌∷◌, arith,
  length, length-append, Bool-cases, Option-cases, ◌==◌,
}
use claude_code_aws_gateway.Prelude.Text.{Text, text_eq}
use claude_code_aws_gateway.Translate.Models.{
  ModelCache, lookup_forward, strip_date_suffix, is_minor_version_bearing, Looked, panics, missing,
  found, looked, retry, lookup_forward_with_fallback,
}
use claude_code_aws_gateway.Translate.Models.Dates.{IsDated, strip_date-dated, strip_date-cases}

-- The mapping of an id without its date answers for it.
pub record ByStem (model : Text) (cache : Option ModelCache) (suffix : Text) : Type 0 where
  pub stem : Text
  pub dated : IsDated model stem
  pub minor : is_minor_version_bearing stem ≡ true
  pub unknown : lookup_forward model cache ≡ none
  pub known : lookup_forward stem cache ≡ some suffix

longer : (model stem : Text) → IsDated model stem → (stem == model) ≡ false
longer model stem d =
    let len = ap length d.is ∙ length-append stem (b'-' ∷ d.date) in
    elim (Bool-cases (stem == model)) [
      | inr e ↦ e
      | inl e ↦
          let same = ap length ((text_eq.beq_iff stem model).0 e) in absurd (omega (arith, d.eight))
    ]

hit :
    (model : Text) (cache : Option ModelCache) (t : Text)
    → lookup_forward model cache ≡ some t
    → lookup_forward_with_fallback model cache ≡ found t
unfolding lookup_forward_with_fallback
hit model cache t h = rw (h, lookup_forward_with_fallback) refl

miss :
    (model : Text) (cache : Option ModelCache)
    → lookup_forward model cache ≡ none
    → lookup_forward_with_fallback model cache ≡ retry model cache (strip_date_suffix model)
unfolding lookup_forward_with_fallback
miss model cache h = rw (h, lookup_forward_with_fallback) refl

retry-stem :
    (model : Text) (cache : Option ModelCache) (t : Text)
    → ByStem model cache t
    → retry model cache (strip_date_suffix model) ≡ found t
retry-stem model cache t b =
    rw (strip_date-dated model b.stem b.dated, longer model b.stem b.dated, b.minor, b.known) refl

looked-found : (o : Option Text) (t : Text) → looked o ≡ found t → o ≡ some t
looked-found none t h = absurd (ground arith)
looked-found (some u) t h = ground arith

retry-found :
    (model : Text) (cache : Option ModelCache) (t : Text)
    → lookup_forward model cache ≡ none
    → retry model cache (strip_date_suffix model) ≡ found t
    → ByStem model cache t
retry-found model cache t unknown h = elim (Option-cases (strip_date_suffix model)) [
  | inl e ↦ let h' : ◌≡◌ {A = Looked} panics (found t) = rw e at h in absurd (ground arith)
  | inr (stem, e) ↦ elim (Bool-cases (not (stem == model) && is_minor_version_bearing stem)) [
    | inr no_retry ↦
        let h' : ◌≡◌ {A = Looked} missing (found t) = rw (e, retry, no_retry) at h in
        absurd (ground arith)
    | inl again ↦
        let h' : looked (lookup_forward stem cache) ≡ found t = rw (e, retry, again) at h in
        elim (strip_date-cases model stem e) [
          | inl same ↦ absurd (ground (arith, text_eq.beq_iff stem model))
          | inr d ↦ record {
            stem = stem;
            dated = d;
            minor = ground arith;
            unknown = unknown;
            known = looked-found (lookup_forward stem cache) t h';
          }
        ]
  ]
]

-- A lookup answers with a suffix exactly if the id has that mapping, or has none and is a dash and
-- eight digits behind an id that ends in two numeric segments and has it: the mapping of a bare
-- major version never answers for a dated id.
pub lookup_fallback_iff :
    (model : Text) (cache : Option ModelCache) (t : Text)
    → (lookup_forward_with_fallback model cache ≡ found t)
      ↔ ((lookup_forward model cache ≡ some t) ⊎ ByStem model cache t)
lookup_fallback_iff model cache t = (
  λ h. elim (Option-cases (lookup_forward model cache)) [
    | inl e ↦ inr (retry-found model cache t e (sym (miss model cache e) ∙ h))
    | inr (u, e) ↦ inl (let both = sym (hit model cache u e) ∙ h in ground arith)
  ],
  λ o. elim o [
    | inl e ↦ hit model cache t e
    | inr b ↦ miss model cache b.unknown ∙ retry-stem model cache t b
  ],
)
