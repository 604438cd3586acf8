-- ===== src/Translate/Models/Reverse.antt =====
-- The way back of src/translate/models.rs: from the ids of Bedrock to those of Anthropic, and the
-- choice among the inference profiles that Bedrock lists.
use claude_code_aws_gateway.Prelude.{
  ℕ, suc, Bool, true, false, not, ◌&&◌, ◌||◌, Option, none, some, List, [], ◌∷◌, leb, eqb, find,
  drop, length, ◌==◌, if◌then◌else◌,
}
use claude_code_aws_gateway.Prelude.Text.{
  Text, codes, text_eq, is_digit, starts_with, ends_with, split_at,
}
use claude_code_aws_gateway.Translate.Models.{CachedMapping, ModelCache, is_number}

-- `s.rfind(p)` as the text before the last match and the text from it on.
unfoldable pub rsplit_at : Text → Text → Option (Text × Text)
unfolding starts_with
rsplit_at [] p = if starts_with [] p then some ([], []) else none
rsplit_at (a ∷ s) p = elim (rsplit_at s p) [
  | some (before, at) ↦ some (a ∷ before, at)
  | none ↦ if starts_with (a ∷ s) p then some ([], a ∷ s) else none
]

-- Cuts a text before a match, if digits follow behind the n characters of the match.
abbrev pub cut_digits : ℕ → Text → Option (Text × Text) → Text
cut_digits n s none = s
cut_digits n s (some (before, at)) = if is_number (drop n at) then before else s

unfoldable pub strip_bedrock_version_tag : Text → Text
unfolding rsplit_at
strip_bedrock_version_tag tagged =
    let s = cut_digits 1 tagged (rsplit_at tagged (codes ":")) in
    cut_digits 2 s (rsplit_at s (codes "-v"))

abbrev pub after_vendor : Text → Option (Text × Text) → Text
after_vendor suffix none = suffix
after_vendor suffix (some (_, at)) = drop 1 at

abbrev pub some_text : Text → Option Text
some_text [] = none
some_text (c ∷ s) = some (c ∷ s)

unfoldable pub derive_canonical_from_bedrock_suffix : Text → Option Text
unfolding split_at strip_bedrock_version_tag
derive_canonical_from_bedrock_suffix suffix =
    elim (after_vendor suffix (split_at suffix (codes "."))) [
      | [] ↦ none
      | c ∷ s ↦ some_text (strip_bedrock_version_tag (c ∷ s))
    ]

abbrev pub leading_digits : Text → ℕ
leading_digits [] = 0
leading_digits (c ∷ s) = let rest = leading_digits s in if is_digit c then suc rest else 0

-- `v` and a digit.
abbrev pub is_version : Text → Bool
is_version [] = false
is_version (c ∷ []) = false
is_version (c ∷ d ∷ s) = eqb c b'v' && is_digit d

-- What may stand behind a stem.
abbrev pub same_model : Text → Bool
same_model [] = true
same_model (c ∷ rest) =
    if eqb c b':'
    then true
    else if eqb c b'-'
    then if is_version rest || eqb (leading_digits rest) 8
      then true
      else not (leb 1 (leading_digits rest) && leb (leading_digits rest) 3)
    else true

abbrev pub at_stem : Text → Option (Text × Text) → Bool
at_stem stem none = false
at_stem stem (some (_, at)) = same_model (drop (length stem) at)

unfoldable pub bedrock_stem_matches : Text → Text → Bool
unfolding split_at
bedrock_stem_matches haystack stem = at_stem stem (split_at haystack stem)

abbrev pub or_else {ℓ} : {A : Type ℓ} → Option A → A → A
or_else none a = a
or_else (some b) a = b

-- The name of a row: its display name, else the one of its suffix, else the id it was made for.
unfoldable pub display_of : CachedMapping → Text
unfolding derive_canonical_from_bedrock_suffix
display_of m =
    or_else m.anthropic_display
      (or_else (derive_canonical_from_bedrock_suffix m.bedrock_suffix) m.anthropic_prefix)

-- The whole id is the suffix, or ends with a dot and the suffix.
unfoldable pub exact_match : Text → CachedMapping → Bool
unfolding ends_with
exact_match model m = model == m.bedrock_suffix || ends_with model (b'.' ∷ m.bedrock_suffix)

unfoldable pub stem_match : Text → CachedMapping → Bool
unfolding bedrock_stem_matches
stem_match model m =
    bedrock_stem_matches model m.bedrock_suffix || bedrock_stem_matches model m.anthropic_prefix

abbrev pub name_of : Option CachedMapping → Option Text
name_of none = none
name_of (some m) = some (display_of m)

-- `guard.values()`, in the order of the map.
unfoldable pub values : ModelCache → List CachedMapping
values [] = []
values ((_, m) ∷ cache) = m ∷ values cache

unfoldable pub lookup_reverse : Text → Option ModelCache → Option Text
unfolding exact_match stem_match display_of values
lookup_reverse model none = none
lookup_reverse model (some cache) = elim (find (exact_match model) (values cache)) [
  | some m ↦ some (display_of m)
  | none ↦ name_of (find (stem_match model) (values cache))
]

-- The arms with a name.
unfoldable pub hardcoded_name : Text → Option Text
unfolding bedrock_stem_matches
hardcoded_name model =
    if bedrock_stem_matches model (codes "claude-fable-5-1")
    then some (codes "claude-fable-5-1")
    else if bedrock_stem_matches model (codes "claude-fable-5")
    then some (codes "claude-fable-5")
    else if bedrock_stem_matches model (codes "claude-opus-4-7")
    then some (codes "claude-opus-4-7")
    else if bedrock_stem_matches model (codes "claude-opus-4-6")
    then some (codes "claude-opus-4-6-20250605")
    else if bedrock_stem_matches model (codes "claude-sonnet-4-6")
    then some (codes "claude-sonnet-4-6-20250514")
    else if bedrock_stem_matches model (codes "claude-opus-4-5")
    then some (codes "claude-opus-4-5-20251101")
    else if bedrock_stem_matches model (codes "claude-sonnet-4-5")
    then some (codes "claude-sonnet-4-5-20250929")
    else if bedrock_stem_matches model (codes "claude-sonnet-4-2025")
    then some (codes "claude-sonnet-4-20250514")
    else if bedrock_stem_matches model (codes "claude-haiku-4-5")
    then some (codes "claude-haiku-4-5-20251001")
    else none

unfoldable pub hardcoded_bedrock_to_anthropic : Text → Text
unfolding hardcoded_name
hardcoded_bedrock_to_anthropic model = or_else (hardcoded_name model) model

-- The cache is absent without a database, and gives nothing on contention.
unfoldable pub bedrock_to_anthropic : Text → Option (Option ModelCache) → Text
unfolding lookup_reverse hardcoded_bedrock_to_anthropic
bedrock_to_anthropic model none = hardcoded_bedrock_to_anthropic model
bedrock_to_anthropic model (some cache) =
    or_else (lookup_reverse model cache) (hardcoded_bedrock_to_anthropic model)
