-- ===== src/Translate/Models/Selection.antt =====
-- Which profile src/translate/models.rs chooses, and what becomes of it.
use claude_code_aws_gateway.Prelude.{
  ℕ, find-holds, ◌≡◌, inl, inr, refl, ap, Bool, true, false, ◌&&◌, Option, none, some, List, [],
  ◌∷◌, ◌++◌, arith, eqb, any, find, drop, Bool-cases, Option-cases,
}
use claude_code_aws_gateway.Prelude.Elem.{Elem, find-Elem, find-none}
use claude_code_aws_gateway.Prelude.Text.{
  Text, codes, text_eq, starts_with, ends_with, split_at, contains,
}
use claude_code_aws_gateway.Prelude.Assoc.{lookup, lookup-insert}
use claude_code_aws_gateway.Translate.Models.{
  CachedMapping, ModelCache, insert_mapping, found, strip_bracket, anthropic_to_bedrock, from_cache,
}
use claude_code_aws_gateway.Translate.Models.Discovery.{
  exact_stem, versioned_stem, is_versioned, select_profile_id, build_mapping_row, mapping_of,
}

split_at-dot :
    (s before at : Text)
    → split_at s (codes ".") ≡ some (before, at)
    → before ++ (b'.' ∷ drop 1 at) ≡ s
unfolding split_at starts_with
split_at-dot [] before at h = absurd (ground arith)
split_at-dot (c ∷ s) before at h = elim (Bool-cases (eqb c b'.')) [
  | inl e ↦
      let dot : c ≡ b'.' = ground arith in
      let h' : ◌≡◌ {A = Option (Text × Text)} (some ([], c ∷ s)) (some (before, at)) = rw e at h in
      let empty : [] ≡ before = ground arith in
      let rest : c ∷ s ≡ at = ground arith in rw (← empty, ← rest, dot) refl
  | inr e ↦ elim (Option-cases (split_at s (codes "."))) [
    | inl n ↦ absurd (ground arith)
    | inr (cut, at_rest) ↦
        let inner = split_at-dot s cut.0 cut.1 at_rest in
        let h' : ◌≡◌ {A = Option (Text × Text)} (some (c ∷ cut.0, cut.1)) (some (before, at)) =
          rw (e, at_rest) at h in
        let front : c ∷ cut.0 ≡ before = ground arith in
        let back : cut.1 ≡ at = ground arith in rw (← front, ← back, inner) refl
  ]
]

no_dot : (s : Text) → any (λ c. eqb c b'.') s ≡ false → split_at s (codes ".") ≡ none
unfolding split_at starts_with
no_dot [] h = refl
no_dot (c ∷ s) h = ground (arith, no_dot s)

-- The row of a profile with a dot takes it apart, so that its prefix, a dot and its suffix are the
-- profile.
row-whole :
    (model stripped id : Text)
    → contains id (codes ".") ≡ true
    → (build_mapping_row model stripped id).profile_prefix
        ++ (b'.' ∷ (build_mapping_row model stripped id).bedrock_suffix)
      ≡ id
unfolding build_mapping_row contains
row-whole model stripped id h = elim (Option-cases (split_at id (codes "."))) [
  | inl n ↦ absurd (ground arith)
  | inr (cut, e) ↦ rw e (split_at-dot id cut.0 cut.1 e)
]

lookup-insert_mapping :
    (m : CachedMapping) (model : Text) (cache : ModelCache)
    → m.anthropic_prefix ≡ model
    → lookup model (insert_mapping m cache) ≡ some m
unfolding insert_mapping
lookup-insert_mapping m model cache e =
    rw
      (
        lookup-insert m.anthropic_prefix model m cache,
        (text_eq.beq_iff m.anthropic_prefix model).1 e,
      )
      refl

-- A discovered model is found again: after the row of a chosen profile, whose id has a dot, is
-- inserted into any cache, a request for the same model id, one without a dot and without a suffix
-- in brackets, is translated to just that profile when the routing prefix is that of the profile.
pub discovered_again :
    (is_word : ℕ → Bool) (model stripped id : Text) (cache : ModelCache)
    → any (λ c. eqb c b'.') model ≡ false
    → strip_bracket is_word model ≡ model
    → contains id (codes ".") ≡ true
    → anthropic_to_bedrock is_word model
        (build_mapping_row model stripped id).profile_prefix
        (some (some (insert_mapping (mapping_of (build_mapping_row model stripped id)) cache)))
      ≡ found id
unfolding anthropic_to_bedrock
discovered_again is_word model stripped id cache dotless plain dotted =
    let row = build_mapping_row model stripped id in
    let known =
      lookup-insert_mapping (mapping_of row) model cache (unfold build_mapping_row in refl) in
    rw (plain, dotless, from_cache, known) (ap found (row-whole model stripped id dotted))

module _ (is_decimal : Text → Bool) (compiles : Text → Bool) where
  abbrev versioned : Text → Text → Bool
  versioned stripped id = compiles stripped && is_versioned is_decimal (versioned_stem stripped) id

  -- The place of an id among the candidates: nothing better is listed.
  pub data Best (ids : List Text) (stripped id : Text) : Type 0 where
    exact : ends_with id (exact_stem stripped) ≡ true → Best ids stripped id
    version :
        any (λ j. ends_with j (exact_stem stripped)) ids ≡ false
        → versioned stripped id ≡ true
        → Best ids stripped id
    fuzzy :
        any (λ j. ends_with j (exact_stem stripped)) ids ≡ false
        → any (versioned stripped) ids ≡ false
        → contains id stripped ≡ true
        → Best ids stripped id

  -- The chosen profile is listed, and it is of the best kind: one that ends with the exact stem; or,
  -- when none does, one with a version behind the stem; or, when there is none of these either, one
  -- that contains the model id.
  pub select_profile-Best :
      (ids : List Text) (stripped id : Text)
      → select_profile_id is_decimal compiles ids stripped ≡ some id
      → Elem id ids × Best ids stripped id
  unfolding select_profile_id
  select_profile-Best ids stripped id h =
      elim (Option-cases (find (λ j. ends_with j (exact_stem stripped)) ids)) [
        | inr (a, e) ↦
            let same : a ≡ id = ground arith in
            rw (← same) (find-Elem _ ids a e, exact (find-holds _ ids a e))
        | inl none_exact ↦ elim (Option-cases (find (versioned stripped) ids)) [
          | inr (a, e) ↦
              let h' : ◌≡◌ {A = Option Text} (some a) (some id) = rw (none_exact, e) at h in
              let same : a ≡ id = ground arith in
              rw (← same)
                (find-Elem _ ids a e, version (find-none _ ids none_exact) (find-holds _ ids a e))
          | inl none_versioned ↦
              let h' : find (λ j. contains j stripped) ids ≡ some id =
                rw (none_exact, none_versioned) at h in
              (
                find-Elem _ ids id h',
                fuzzy (find-none _ ids none_exact) (find-none _ ids none_versioned)
                    (find-holds _ ids id h'),
              )
        ]
      ]
