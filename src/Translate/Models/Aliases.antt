-- ===== src/Translate/Models/Aliases.antt =====
-- The rows of one Bedrock model in the reverse lookup of src/translate/models.rs.
use claude_code_aws_gateway.Prelude.{
  ◌≡◌, inl, inr, refl, true, none, some, List, [], ◌∷◌, arith, any, find, All, Option-cases,
  Bool-cases, Bool, All-map,
}
use claude_code_aws_gateway.Prelude.Elem.{find-none}
use claude_code_aws_gateway.Prelude.Text.{Text}
use claude_code_aws_gateway.Translate.Models.{CachedMapping, ModelCache}
use claude_code_aws_gateway.Translate.Models.Reverse.{
  derive_canonical_from_bedrock_suffix, display_of, exact_match, values, lookup_reverse,
}

-- A row as discovery writes it for an id without a date.
pub record IsAlias (suffix : Text) (m : CachedMapping) : Type 0 where
  pub undisplayed : m.anthropic_display ≡ none
  pub shared : m.bedrock_suffix ≡ suffix

display_of-alias :
    (suffix name : Text) (m : CachedMapping)
    → derive_canonical_from_bedrock_suffix suffix ≡ some name
    → IsAlias suffix m
    → display_of m ≡ name
unfolding display_of
display_of-alias suffix name m e a = rw (a.undisplayed, a.shared, e) refl

find-All {ℓ κ} :
    {A : Type ℓ} {B : Type κ} (p : A → Bool) (f : A → B) (b : B) (xs : List A) (x : A)
    → find p xs ≡ some x
    → All (λ y. p y ≡ true → f y ≡ b) xs
    → f x ≡ b
find-All p f b [] x h a = absurd (ground arith)
find-All p f b (y ∷ xs) x h a = elim (Bool-cases (p y)) [
  | inl e ↦ let same : y ≡ x = ground arith in rw (← same) (a.0 e)
  | inr e ↦ find-All p f b xs x (ground arith) a.1
]

-- The order of the map does not matter to aliases: if some row matches a Bedrock id exactly, and all
-- that do have no display name and the same suffix, from which a name can be derived, then the
-- lookup gives that name.
pub lookup_reverse-aliases :
    (cache : ModelCache) (model suffix name : Text)
    → derive_canonical_from_bedrock_suffix suffix ≡ some name
    → any (exact_match model) (values cache) ≡ true
    → All (λ m. exact_match model m ≡ true → IsAlias suffix m) (values cache)
    → lookup_reverse model (some cache) ≡ some name
unfolding lookup_reverse
lookup_reverse-aliases cache model suffix name derived hit aliases =
    elim (Option-cases (find (exact_match model) (values cache))) [
      | inl n ↦ let off = find-none (exact_match model) (values cache) n in absurd (ground arith)
      | inr (m, e) ↦
          let named =
            All-map _ (λ j. exact_match model j ≡ true → display_of j ≡ name) (values cache)
              (λ j f h. display_of-alias suffix name j derived (f h)) aliases in
          rw
            (
              e,
              lookup_reverse,
              find-All (exact_match model) display_of name (values cache) m e named,
            )
            refl
    ]
