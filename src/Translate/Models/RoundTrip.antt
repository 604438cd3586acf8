-- ===== src/Translate/Models/RoundTrip.antt =====
-- The built-in tables of src/translate/models.rs in both directions.
use claude_code_aws_gateway.Prelude.{
  ℕ, ◌≡◌, inl, inr, refl, ◌∙◌, Bool, true, false, Option, none, some, List, [], ◌∷◌, ◌++◌, arith,
  eqb, any, All, Bool-cases, Option-cases,
}
use claude_code_aws_gateway.Prelude.Text.{
  Text, codes, text_beq, prepend, starts_with, split_at, contains,
}
use claude_code_aws_gateway.Translate.Models.{
  found, anthropic_to_bedrock, hardcoded_anthropic_to_bedrock,
}
use claude_code_aws_gateway.Translate.Models.Reverse.{
  at_stem, bedrock_stem_matches, hardcoded_name, hardcoded_bedrock_to_anthropic,
  bedrock_to_anthropic,
}

abbrev has_dot : Text → Bool
has_dot s = any (λ c. eqb c b'.') s

-- A stem without a dot does not reach over one.
starts_with-dot :
    (s rest stem : Text)
    → has_dot stem ≡ false
    → starts_with (s ++ (b'.' ∷ rest)) stem ≡ starts_with s stem
unfolding starts_with
starts_with-dot [] rest [] h = refl
starts_with-dot [] rest (c ∷ stem) h = ground arith
starts_with-dot (a ∷ s) rest [] h = refl
starts_with-dot (a ∷ s) rest (c ∷ stem) h = ground (arith, starts_with-dot s rest stem)

at_stem-prepend :
    (stem : Text) (c : ℕ) (o : Option (Text × Text)) → at_stem stem (prepend c o) ≡ at_stem stem o
at_stem-prepend stem c none = refl
at_stem-prepend stem c (some cut) = refl

contains-prepend :
    (a : ℕ) (s stem : Text)
    → contains (a ∷ s) stem ≡ false
    → (starts_with (a ∷ s) stem ≡ false) × (contains s stem ≡ false)
unfolding contains split_at
contains-prepend a s stem h = elim (Bool-cases (starts_with (a ∷ s) stem)) [
  | inl e ↦ absurd (ground arith)
  | inr e ↦ (
    e,
    elim (Option-cases (split_at s stem)) [
      | inl n ↦ rw (n, contains) refl
      | inr (cut, at) ↦ let h' : true ≡ false = rw (e, at, contains) at h in absurd (ground arith)
    ],
  )
]

matches_behind :
    (p rest : Text) (c : ℕ) (stem : Text)
    → has_dot (c ∷ stem) ≡ false
    → contains p (c ∷ stem) ≡ false
    → bedrock_stem_matches (p ++ (b'.' ∷ rest)) (c ∷ stem) ≡ bedrock_stem_matches rest (c ∷ stem)
unfolding bedrock_stem_matches split_at
matches_behind [] rest c stem h k =
    rw (starts_with-dot [] rest (c ∷ stem) h)
      (at_stem-prepend (c ∷ stem) b'.' (split_at rest (c ∷ stem)))
matches_behind (a ∷ p) rest c stem h k =
    let (off, inner) = contains-prepend a p (c ∷ stem) k in
    let behind : starts_with (a ∷ (p ++ (b'.' ∷ rest))) (c ∷ stem) ≡ false =
      starts_with-dot (a ∷ p) rest (c ∷ stem) h ∙ off in
    rw behind (at_stem-prepend (c ∷ stem) a _ ∙ matches_behind p rest c stem h inner)

starts_with-left : (s x y : Text) → starts_with s (x ++ y) ≡ true → starts_with s x ≡ true
unfolding starts_with
starts_with-left s [] y h = refl
starts_with-left [] (b ∷ x) y h = h
starts_with-left (a ∷ s) (b ∷ x) y h = ground (arith, starts_with-left s x y)

contains-left : (s x y : Text) → contains s x ≡ false → contains s (x ++ y) ≡ false
unfolding contains split_at
contains-left [] x y h = elim (Bool-cases (starts_with [] (x ++ y))) [
  | inl e ↦ let shorter = starts_with-left [] x y e in absurd (ground arith)
  | inr e ↦ rw (e, contains) refl
]
contains-left (a ∷ s) x y h =
    let (off, inner) = contains-prepend a s x h in
    let rest = contains-left s x y inner in
    elim (Bool-cases (starts_with (a ∷ s) (x ++ y))) [
      | inl e ↦ let shorter = starts_with-left (a ∷ s) x y e in absurd (ground arith)
      | inr e ↦ elim (Option-cases (split_at s (x ++ y))) [
        | inl n ↦ rw (e, n, contains) refl
        | inr (cut, at) ↦ let h' : true ≡ false = rw (at, contains) at rest in absurd (ground arith)
      ]
    ]

-- The stems of the table start with the same word.
stem_behind :
    (p rest tail : Text)
    → contains p (codes "claude") ≡ false
    → has_dot (codes "claude" ++ tail) ≡ false
    → bedrock_stem_matches (p ++ (b'.' ∷ rest)) (codes "claude" ++ tail)
      ≡ bedrock_stem_matches rest (codes "claude" ++ tail)
stem_behind p rest tail h k =
    matches_behind p rest b'c' (codes "laude" ++ tail) k (contains-left p (codes "claude") tail h)

name_behind :
    (p rest : Text)
    → contains p (codes "claude") ≡ false
    → hardcoded_name (p ++ (b'.' ∷ rest)) ≡ hardcoded_name rest
unfolding hardcoded_name
name_behind p rest h =
    rw
      (
        stem_behind p rest (codes "-fable-5-1") h refl,
        stem_behind p rest (codes "-fable-5") h refl,
        stem_behind p rest (codes "-opus-4-7") h refl,
        stem_behind p rest (codes "-opus-4-6") h refl,
        stem_behind p rest (codes "-sonnet-4-6") h refl,
        stem_behind p rest (codes "-opus-4-5") h refl,
        stem_behind p rest (codes "-sonnet-4-5") h refl,
        stem_behind p rest (codes "-sonnet-4-2025") h refl,
        stem_behind p rest (codes "-haiku-4-5") h refl,
      )
      refl

infixr 4 ◌▸◌
abbrev ◌▸◌ {ℓ κ} : {A : Type ℓ} {B : Type κ} → A → B → A × B
a ▸ b = (a, b)

-- The ids of the table with the canonical id of each.
abbrev pub known : List (Text × Text)
known =
    (codes "claude-fable-5-1", codes "claude-fable-5-1")
    ∷ (codes "claude-fable-5", codes "claude-fable-5")
    ∷ (codes "claude-opus-4-7", codes "claude-opus-4-7")
    ∷ (codes "claude-opus-4-6", codes "claude-opus-4-6-20250605")
    ∷ (codes "claude-opus-4-6-20250605", codes "claude-opus-4-6-20250605")
    ∷ (codes "claude-sonnet-4-6", codes "claude-sonnet-4-6-20250514")
    ∷ (codes "claude-sonnet-4-6-20250514", codes "claude-sonnet-4-6-20250514")
    ∷ (codes "claude-opus-4-5", codes "claude-opus-4-5-20251101")
    ∷ (codes "claude-opus-4-5-20251101", codes "claude-opus-4-5-20251101")
    ∷ (codes "claude-sonnet-4-5", codes "claude-sonnet-4-5-20250929")
    ∷ (codes "claude-sonnet-4-5-20250929", codes "claude-sonnet-4-5-20250929")
    ∷ (codes "claude-sonnet-4", codes "claude-sonnet-4-20250514")
    ∷ (codes "claude-sonnet-4-20250514", codes "claude-sonnet-4-20250514")
    ∷ (codes "claude-haiku-4-5", codes "claude-haiku-4-5-20251001")
    ∷ (codes "claude-haiku-4-5-20251001", codes "claude-haiku-4-5-20251001")
    ∷ []

-- The profile to which an id is translated is translated back to a name.
pub record ComesBack (is_word : ℕ → Bool) (prefix id name : Text) : Type 0 where
  pub profile : Text
  pub there : anthropic_to_bedrock is_word id prefix none ≡ found profile
  pub back : bedrock_to_anthropic profile none ≡ name

comes_back :
    (is_word : ℕ → Bool) (prefix rest id name : Text)
    → contains prefix (codes "claude") ≡ false
    → anthropic_to_bedrock is_word id prefix none ≡ found (prefix ++ (b'.' ∷ rest))
    → hardcoded_name rest ≡ some name
    → ComesBack is_word prefix id name
unfolding bedrock_to_anthropic hardcoded_bedrock_to_anthropic
comes_back is_word prefix rest id name h there named = record {
  profile = prefix ++ (b'.' ∷ rest);
  there = there;
  back = rw (name_behind prefix rest h, named) refl;
}

-- Without a cache, each id of the built-in table comes back, through its profile, as its canonical
-- id, whatever the routing prefix, as long as it does not contain the word that the stems start
-- with.
pub known_round_trip :
    (is_word : ℕ → Bool) (prefix : Text)
    → contains prefix (codes "claude") ≡ false
    → All (λ a. ComesBack is_word prefix a.0 a.1) known
unfolding anthropic_to_bedrock hardcoded_anthropic_to_bedrock hardcoded_name bedrock_stem_matches
    split_at starts_with text_beq
known_round_trip is_word prefix h =
    comes_back is_word prefix (codes "anthropic.claude-fable-5-1") _ _ h refl refl
    ▸ comes_back is_word prefix (codes "anthropic.claude-fable-5") _ _ h refl refl
    ▸ comes_back is_word prefix (codes "anthropic.claude-opus-4-7") _ _ h refl refl
    ▸ comes_back is_word prefix (codes "anthropic.claude-opus-4-6-v1") _ _ h refl refl
    ▸ comes_back is_word prefix (codes "anthropic.claude-opus-4-6-v1") _ _ h refl refl
    ▸ comes_back is_word prefix (codes "anthropic.claude-sonnet-4-6") _ _ h refl refl
    ▸ comes_back is_word prefix (codes "anthropic.claude-sonnet-4-6") _ _ h refl refl
    ▸ comes_back is_word prefix (codes "anthropic.claude-opus-4-5-20251101-v1:0") _ _ h refl refl
    ▸ comes_back is_word prefix (codes "anthropic.claude-opus-4-5-20251101-v1:0") _ _ h refl refl
    ▸ comes_back is_word prefix (codes "anthropic.claude-sonnet-4-5-20250929-v1:0") _ _ h refl refl
    ▸ comes_back is_word prefix (codes "anthropic.claude-sonnet-4-5-20250929-v1:0") _ _ h refl refl
    ▸ comes_back is_word prefix (codes "anthropic.claude-sonnet-4-20250514-v1:0") _ _ h refl refl
    ▸ comes_back is_word prefix (codes "anthropic.claude-sonnet-4-20250514-v1:0") _ _ h refl refl
    ▸ comes_back is_word prefix (codes "anthropic.claude-haiku-4-5-20251001-v1:0") _ _ h refl refl
    ▸ comes_back is_word prefix (codes "anthropic.claude-haiku-4-5-20251001-v1:0") _ _ h refl refl
    ▸ tt
