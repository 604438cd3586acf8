-- ===== src/Translate/Models.antt =====
-- src/translate/models.rs: model ids of Anthropic and of Bedrock, with the cache of mappings. A text
-- is the list of its code points; slicing it inside a character is a panic, so the number of bytes of
-- each character is part of the model. The cache is what `try_read` gives: nothing on contention;
-- the reads of one translation see the same.
pub mod Fallback
pub mod Dates
pub mod Reverse
pub mod Discovery
pub mod Selection
pub mod RoundTrip
pub mod Aliases
mod Tests
use claude_code_aws_gateway.Prelude.{
  ℕ, zero, suc, ◌+◌, ◌-◌, ◌≤◌, Bool, true, false, not, ◌&&◌, ◌||◌, Option, none, some, List, [],
  ◌∷◌, ◌++◌, ltb, leb, eqb, any, ◌==◌, if◌then◌else◌,
}
use claude_code_aws_gateway.Prelude.Text.{
  Text, codes, text_eq, prepend, char_len, byte_len, is_digit,
}
use claude_code_aws_gateway.Prelude.Assoc.{Assoc, lookup, insert}

pub record CachedMapping : Type 0 where
  pub anthropic_prefix : Text
  pub bedrock_suffix : Text
  pub anthropic_display : Option Text

-- The mappings by the id that a client requested.
abbrev pub ModelCache : Type 0
ModelCache = Assoc Text CachedMapping

unfoldable pub insert_mapping : CachedMapping → ModelCache → ModelCache
insert_mapping m cache = insert m.anthropic_prefix m cache

abbrev pub suffix_of : Option CachedMapping → Option Text
suffix_of none = none
suffix_of (some m) = some m.bedrock_suffix

unfoldable pub lookup_forward : Text → Option ModelCache → Option Text
lookup_forward model none = none
lookup_forward model (some cache) = suffix_of (lookup model cache)

-- The text before and behind byte n, if a character ends there.
unfoldable pub bytes_at : ℕ → Text → Option (Text × Text)
bytes_at zero s = some ([], s)
bytes_at (suc n) [] = none
bytes_at (suc n) (c ∷ s) =
    let rest = prepend c (bytes_at (suc n - char_len c) s) in
    if leb (char_len c) (suc n) then rest else none

abbrev pub all_digits : Text → Bool
all_digits [] = true
all_digits (c ∷ s) = is_digit c && all_digits s

abbrev pub is_date : Text → Bool
is_date [] = false
is_date (c ∷ s) = eqb c b'-' && all_digits s

abbrev pub cut_date : Text → Option (Text × Text) → Option Text
cut_date model none = none
cut_date model (some (stem, candidate)) = some (if is_date candidate then stem else model)

-- The result is nothing where the source panics.
unfoldable pub strip_date_suffix : Text → Option Text
unfolding bytes_at
strip_date_suffix model =
    if leb 9 (byte_len model)
    then cut_date model (bytes_at (byte_len model - 9) model)
    else some model

abbrev pub grow : ℕ → List Text → List Text
grow c [] = (c ∷ []) ∷ []
grow c (seg ∷ segs) = (c ∷ seg) ∷ segs

-- `s.split('-')`
unfoldable pub segments : Text → List Text
segments [] = [] ∷ []
segments (c ∷ s) = if eqb c b'-' then [] ∷ segments s else grow c (segments s)

abbrev pub is_number : Text → Bool
is_number [] = false
is_number (c ∷ s) = all_digits (c ∷ s)

abbrev pub ends_numeric : List Text → Bool
ends_numeric [] = false
ends_numeric (a ∷ []) = false
ends_numeric (a ∷ b ∷ []) = is_number a && is_number b
ends_numeric (a ∷ b ∷ c ∷ segs) = ends_numeric (b ∷ c ∷ segs)

unfoldable pub is_minor_version_bearing : Text → Bool
unfolding segments
is_minor_version_bearing s = ends_numeric (segments s)

-- The result of a lookup that may panic.
pub data Looked : Type 0 where
  panics missing : Looked
  found : Text → Looked

abbrev pub looked : Option Text → Looked
looked none = missing
looked (some t) = found t

abbrev pub retry : Text → Option ModelCache → Option Text → Looked
retry model cache none = panics
retry model cache (some stripped) =
    if not (stripped == model) && is_minor_version_bearing stripped
    then looked (lookup_forward stripped cache)
    else missing

unfoldable pub lookup_forward_with_fallback : Text → Option ModelCache → Looked
unfolding lookup_forward strip_date_suffix is_minor_version_bearing
lookup_forward_with_fallback model cache = elim (lookup_forward model cache) [
  | some hit ↦ found hit
  | none ↦ retry model cache (strip_date_suffix model)
]

unfoldable pub hardcoded_anthropic_to_bedrock : Text → Text → Text
hardcoded_anthropic_to_bedrock model prefix =
    if model == codes "claude-fable-5-1"
    then prefix ++ codes ".anthropic.claude-fable-5-1"
    else if model == codes "claude-fable-5"
    then prefix ++ codes ".anthropic.claude-fable-5"
    else if model == codes "claude-opus-4-7"
    then prefix ++ codes ".anthropic.claude-opus-4-7"
    else if model == codes "claude-opus-4-6" || model == codes "claude-opus-4-6-20250605"
    then prefix ++ codes ".anthropic.claude-opus-4-6-v1"
    else if model == codes "claude-sonnet-4-6" || model == codes "claude-sonnet-4-6-20250514"
    then prefix ++ codes ".anthropic.claude-sonnet-4-6"
    else if model == codes "claude-opus-4-5" || model == codes "claude-opus-4-5-20251101"
    then prefix ++ codes ".anthropic.claude-opus-4-5-20251101-v1:0"
    else if model == codes "claude-sonnet-4-5" || model == codes "claude-sonnet-4-5-20250929"
    then prefix ++ codes ".anthropic.claude-sonnet-4-5-20250929-v1:0"
    else if model == codes "claude-sonnet-4" || model == codes "claude-sonnet-4-20250514"
    then prefix ++ codes ".anthropic.claude-sonnet-4-20250514-v1:0"
    else if model == codes "claude-haiku-4-5" || model == codes "claude-haiku-4-5-20251001"
    then prefix ++ codes ".anthropic.claude-haiku-4-5-20251001-v1:0"
    else model

-- The class `\w` of the regular expressions.
module _ (is_word : ℕ → Bool) where
  abbrev pub closes : Bool → Text → Bool
  closes some_word [] = false
  closes some_word (c ∷ []) = some_word && eqb c b']'
  closes some_word (c ∷ d ∷ s) = is_word c && closes true (d ∷ s)

  -- What the first match of `\[\w+\]$` is cut from.
  unfoldable pub strip_bracket : Text → Text
  strip_bracket [] = []
  strip_bracket (c ∷ s) =
      let rest = c ∷ strip_bracket s in if eqb c b'[' && closes false s then [] else rest

  abbrev pub from_cache : Text → Text → Option (Option ModelCache) → Looked
  from_cache model prefix none = found (hardcoded_anthropic_to_bedrock model prefix)
  from_cache model prefix (some cache) = elim (lookup_forward_with_fallback model cache) [
    | panics ↦ panics
    | missing ↦ found (hardcoded_anthropic_to_bedrock model prefix)
    | found suffix ↦ found (prefix ++ (b'.' ∷ suffix))
  ]

  unfoldable pub anthropic_to_bedrock : Text → Text → Option (Option ModelCache) → Looked
  unfolding strip_bracket hardcoded_anthropic_to_bedrock lookup_forward_with_fallback
  anthropic_to_bedrock requested prefix cache =
      let model = strip_bracket requested in
      if any (λ c. eqb c b'.') model then found model else from_cache model prefix cache
