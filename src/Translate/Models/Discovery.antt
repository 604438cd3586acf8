-- ===== src/Translate/Models/Discovery.antt =====
-- The discovery of a model in src/translate/models.rs: the choice among the inference profiles that
-- Bedrock lists, and the row that is made of it. The listing, which the AWS client fetches page by
-- page, is a parameter: nothing where a page fails.
use claude_code_aws_gateway.Prelude.{
  Bool, ◌&&◌, ◌||◌, Option, none, some, List, [], ◌∷◌, ◌++◌, find, drop, length, ◌==◌,
  if◌then◌else◌,
}
use claude_code_aws_gateway.Prelude.Text.{
  Text, codes, text_eq, starts_with, ends_with, split_at, contains,
}
use claude_code_aws_gateway.Prelude.Assoc.{map_option}
use claude_code_aws_gateway.Translate.Models.{CachedMapping, strip_date_suffix}

-- A mapping with the prefix of its profile.
pub record MappingRow : Type 0 where
  pub anthropic_prefix : Text
  pub bedrock_suffix : Text
  pub anthropic_display : Option Text
  pub profile_prefix : Text

abbrev pub exact_stem : Text → Text
exact_stem stripped = codes ".anthropic." ++ stripped

-- The prefix and the suffix of a profile: what stands around its first dot.
abbrev pub around_dot : Text → Option (Text × Text) → Text × Text
around_dot id none = (id, id)
around_dot id (some (before, at)) = (before, drop 1 at)

unfoldable pub build_mapping_row : Text → Text → Text → MappingRow
unfolding split_at
build_mapping_row model stripped id =
    let (profile_prefix, bedrock_suffix) = around_dot id (split_at id (codes ".")) in
    record {
      anthropic_prefix = model;
      bedrock_suffix = bedrock_suffix;
      anthropic_display = if model == stripped then none else some model;
      profile_prefix = profile_prefix;
    }

abbrev pub versioned_stem : Text → Text
versioned_stem stripped = exact_stem stripped ++ codes "-v"

abbrev pub or_find : (Text → Bool) → List Text → Option Text → Option Text
or_find p ids none = find p ids
or_find p ids (some id) = some id

-- The class `\d` of the regular expressions.
module _ (is_decimal : Text → Bool) where
  -- Decimal digits up to the end, with a colon between them at most once.
  abbrev pub version_end : Text → Bool
  version_end s = elim (split_at s (codes ":")) [
    | none ↦ is_decimal s
    | some (before, at) ↦ is_decimal before && is_decimal (drop 1 at)
  ]

  abbrev pub version_here : Text → Text → Bool
  version_here stem s = starts_with s stem && version_end (drop (length stem) s)

  -- `re.is_match(id)` for the pattern of a versioned stem.
  unfoldable pub is_versioned : Text → Text → Bool
  is_versioned stem [] = version_here stem []
  is_versioned stem (c ∷ s) = version_here stem (c ∷ s) || is_versioned stem s

-- With the size limit of patterns.
module _ (is_decimal : Text → Bool) (compiles : Text → Bool) where
  unfoldable pub select_profile_id : List Text → Text → Option Text
  unfolding ends_with is_versioned contains
  select_profile_id ids stripped =
      let first = find (λ id. ends_with id (exact_stem stripped)) ids in
      let second =
        or_find (λ id. compiles stripped && is_versioned is_decimal (versioned_stem stripped) id)
          ids first in
      or_find (λ id. contains id stripped) ids second

  abbrev pub choose : Text → Text → Option (List Text) → Option MappingRow
  unfolding select_profile_id build_mapping_row
  choose model stripped none = none
  choose model stripped (some ids) =
      map_option (build_mapping_row model stripped) (select_profile_id ids stripped)

  -- Nothing where the source panics.
  unfoldable pub discover_model : Option (List Text) → Text → Option (Option MappingRow)
  unfolding strip_date_suffix
  discover_model listing model =
      map_option (λ stripped. choose model stripped listing) (strip_date_suffix model)

-- The row as it is stored and cached.
abbrev pub mapping_of : MappingRow → CachedMapping
mapping_of row = record {
  anthropic_prefix = row.anthropic_prefix;
  bedrock_suffix = row.bedrock_suffix;
  anthropic_display = row.anthropic_display;
}
