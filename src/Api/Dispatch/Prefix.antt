-- ===== src/Api/Dispatch/Prefix.antt =====
-- The model of a fallback endpoint in src/api/handlers.rs, against src/translate/models.rs.
use claude_code_aws_gateway.Prelude.{
  ℕ, ◌≡◌, ◌⊎◌, inl, inr, refl, sym, ap, Bool, true, false, Option, none, some, [], ◌∷◌, ◌++◌, arith,
  eqb, any, drop, length, if◌then◌else◌,
}
use claude_code_aws_gateway.Prelude.Text.{Text, codes, text_eq, starts_with}
use claude_code_aws_gateway.Translate.Models.{
  ModelCache, Looked, panics, missing, found, hardcoded_anthropic_to_bedrock, strip_bracket,
  anthropic_to_bedrock, from_cache, lookup_forward_with_fallback,
}
use claude_code_aws_gateway.Api.Dispatch.{reprefix_model, target_of, resolve_dispatch_target}
use claude_code_aws_gateway.Endpoint.Pool.{EndpointClient, aip_override_for}

append_assoc : (a b c : Text) → (a ++ b) ++ c ≡ a ++ (b ++ c)
append_assoc [] b c = refl
append_assoc (x ∷ a) b c = ap (λ t. x ∷ t) (append_assoc a b c)

starts_with-append : (p s : Text) → starts_with (p ++ s) p ≡ true
unfolding starts_with
starts_with-append [] s = refl
starts_with-append (c ∷ p) s = ground (arith, starts_with-append p s)

drop-append : (p s : Text) → drop (length p) (p ++ s) ≡ s
drop-append [] s = refl
drop-append (c ∷ p) s = drop-append p s

starts_with-dotless :
    (s p : Text) → any (λ c. eqb c b'.') s ≡ false → starts_with s (p ++ b'.' ∷ []) ≡ false
unfolding starts_with
starts_with-dotless [] [] h = refl
starts_with-dotless [] (c ∷ p) h = refl
starts_with-dotless (a ∷ s) [] h = ground arith
starts_with-dotless (a ∷ s) (c ∷ p) h = ground (arith, starts_with-dotless s p)

reprefix-prefixed : (p q s : Text) → reprefix_model (p ++ (b'.' ∷ s)) p q ≡ q ++ (b'.' ∷ s)
unfolding reprefix_model
reprefix-prefixed p q s =
    let split : p ++ (b'.' ∷ s) ≡ (p ++ b'.' ∷ []) ++ s = sym (append_assoc p (b'.' ∷ []) s) in
    rw (split, starts_with-append (p ++ b'.' ∷ []) s, drop-append (p ++ b'.' ∷ []) s) refl

reprefix-dotless : (s p q : Text) → any (λ c. eqb c b'.') s ≡ false → reprefix_model s p q ≡ s
unfolding reprefix_model
reprefix-dotless s p q h = rw (starts_with-dotless s p h) refl

-- A target that starts with the prefix and a dot, or does not depend on it.
abbrev Follows : Text → (Text → Text) → Type 0
Follows model f = ((s : Text) × ((p : Text) → f p ≡ p ++ (b'.' ∷ s))) ⊎ ((p : Text) → f p ≡ model)

Follows-if :
    (model s : Text) (b : Bool) (f : Text → Text)
    → Follows model f
    → Follows model (λ p. if b then p ++ (b'.' ∷ s) else f p)
Follows-if model s true f h = inl (s, λ p. refl)
Follows-if model s false f h = h

hardcoded-Follows : (model : Text) → Follows model (hardcoded_anthropic_to_bedrock model)
unfolding hardcoded_anthropic_to_bedrock
hardcoded-Follows model = Follows-if model (codes "anthropic.claude-fable-5-1") _ _ (
    Follows-if model (codes "anthropic.claude-fable-5") _ _ (
      Follows-if model (codes "anthropic.claude-opus-4-7") _ _ (
        Follows-if model (codes "anthropic.claude-opus-4-6-v1") _ _ (
          Follows-if model (codes "anthropic.claude-sonnet-4-6") _ _ (
            Follows-if model (codes "anthropic.claude-opus-4-5-20251101-v1:0") _ _ (
              Follows-if model (codes "anthropic.claude-sonnet-4-5-20250929-v1:0") _ _ (
                Follows-if model (codes "anthropic.claude-sonnet-4-20250514-v1:0") _ _ (
                  Follows-if model (codes "anthropic.claude-haiku-4-5-20251001-v1:0") _ _
                    (inr (λ p. refl))))))))))

Follows-reprefix :
    (model : Text) (f : Text → Text) (p q : Text)
    → any (λ c. eqb c b'.') model ≡ false
    → Follows model f
    → reprefix_model (f p) p q ≡ f q
Follows-reprefix model f p q h (inl (s, e)) = rw (e p, e q) (reprefix-prefixed p q s)
Follows-reprefix model f p q h (inr e) = rw (e p, e q) (reprefix-dotless model p q h)

Looked-cases : (l : Looked) → (l ≡ panics) ⊎ ((l ≡ missing) ⊎ ((s : Text) × (l ≡ found s)))
Looked-cases panics = inl refl
Looked-cases missing = inr (inl refl)
Looked-cases (found s) = inr (inr (s, refl))

found_inj : (a b : Text) → found a ≡ found b → a ≡ b
found_inj a b e = cc

from_cache-reprefix :
    (is_word : ℕ → Bool) (model p q x : Text) (cache : Option (Option ModelCache))
    → any (λ c. eqb c b'.') model ≡ false
    → from_cache is_word model p cache ≡ found x
    → from_cache is_word model q cache ≡ found (reprefix_model x p q)
from_cache-reprefix is_word model p q x none h e =
    let same = found_inj (hardcoded_anthropic_to_bedrock model p) x e in
    rw (← same) (
      ap found (
        sym (
          Follows-reprefix model (hardcoded_anthropic_to_bedrock model) p q h
            (hardcoded-Follows model))))
from_cache-reprefix is_word model p q x (some cache) h e =
    elim (Looked-cases (lookup_forward_with_fallback model cache)) [
      | inl l ↦ let e' : panics ≡ found x = rw (l, from_cache) at e in absurd (ground arith)
      | inr (inl l) ↦
          let e' : found (hardcoded_anthropic_to_bedrock model p) ≡ found x =
            rw (l, from_cache) at e in
          let same = found_inj (hardcoded_anthropic_to_bedrock model p) x e' in
          rw (l, from_cache, ← same)
            (ap found (
              sym (
                Follows-reprefix model (hardcoded_anthropic_to_bedrock model) p q h
                  (hardcoded-Follows model))))
      | inr (inr (suffix, l)) ↦
          let e' : found (p ++ (b'.' ∷ suffix)) ≡ found x = rw (l, from_cache) at e in
          let same = found_inj (p ++ (b'.' ∷ suffix)) x e' in
          rw (l, from_cache, ← same) (ap found (sym (reprefix-prefixed p q suffix)))
    ]

-- An endpoint without an override for the model and without a profile of its own.
abbrev pub IsPlain : Text → EndpointClient → Type 0
IsPlain model ep = (aip_override_for ep model ≡ none) × (ep.config.inference_profile_arn ≡ none)

target-plain :
    (cri_model original_model : Text) (ep : EndpointClient)
    → IsPlain original_model ep
    → target_of cri_model original_model (some ep) ≡ cri_model
unfolding target_of resolve_dispatch_target
target-plain cri_model original_model ep (no_override, no_profile) =
    rw (no_override, no_profile) refl

-- For a model id without a dot, at an endpoint without an override for it and without a profile of its own:
-- the target that is resolved from its translation, with the prefix replaced as the failover
-- replaces it, is the translation for the other prefix, whatever the cache and both prefixes. An
-- override or a discovered profile as the target is not considered.
pub reprefix-anthropic_to_bedrock :
    (is_word : ℕ → Bool) (requested p q x : Text) (cache : Option (Option ModelCache))
    (ep : EndpointClient)
    → any (λ c. eqb c b'.') (strip_bracket is_word requested) ≡ false
    → anthropic_to_bedrock is_word requested p cache ≡ found x
    → IsPlain requested ep
    → anthropic_to_bedrock is_word requested q cache
      ≡ found (reprefix_model (target_of x requested (some ep)) p q)
unfolding anthropic_to_bedrock
reprefix-anthropic_to_bedrock is_word requested p q x cache ep h e plain =
    rw (h, target-plain x requested ep plain)
      (from_cache-reprefix is_word (strip_bracket is_word requested) p q x cache h (rw h at e))
