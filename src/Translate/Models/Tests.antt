-- ===== src/Translate/Models/Tests.antt =====
-- The theorems about src/translate/models.rs, at concrete ids.
use claude_code_aws_gateway.Prelude.{
  ◌≡◌, refl, Bool, true, Option, none, some, List, [], ◌∷◌, ◌++◌, All,
}
use claude_code_aws_gateway.Prelude.Elem.{Elem}
use claude_code_aws_gateway.Prelude.Text.{
  Text, codes, text_beq, starts_with, ends_with, split_at, contains,
}
use claude_code_aws_gateway.Prelude.Assoc.{lookup}
use claude_code_aws_gateway.Translate.Models.{
  CachedMapping, ModelCache, lookup_forward, bytes_at, segments, insert_mapping, strip_bracket,
  is_number, is_minor_version_bearing, found, missing, lookup_forward_with_fallback,
  anthropic_to_bedrock,
}
use claude_code_aws_gateway.Translate.Models.Reverse.{
  rsplit_at, derive_canonical_from_bedrock_suffix, exact_match, values, lookup_reverse,
}
use claude_code_aws_gateway.Translate.Models.Discovery.{
  is_versioned, select_profile_id, build_mapping_row, mapping_of,
}
use claude_code_aws_gateway.Translate.Models.Selection.{Best, select_profile-Best, discovered_again}
use claude_code_aws_gateway.Translate.Models.RoundTrip.{known, ComesBack, known_round_trip}
use claude_code_aws_gateway.Translate.Models.Fallback.{ByStem}

abbrev mapping : Text → Text → CachedMapping
mapping id suffix = record {
  anthropic_prefix = id;
  bedrock_suffix = suffix;
  anthropic_display = none;
}

abbrev cache : ModelCache
cache =
    (codes "opus-4-8", mapping (codes "opus-4-8") (codes "anthropic.new"))
    ∷ (codes "opus-4", mapping (codes "opus-4") (codes "anthropic.old"))
    ∷ []

dated_id : ByStem (codes "opus-4-8-20260601") (some cache) (codes "anthropic.new")
unfolding is_minor_version_bearing lookup_forward lookup text_beq
dated_id = record {
  stem = codes "opus-4-8";
  dated = record { date = codes "20260601"; is = refl; eight = refl; digits = refl };
  minor = refl;
  unknown = refl;
  known = refl;
}

bare_major : lookup_forward_with_fallback (codes "opus-4-20260601") (some cache) ≡ missing
unfolding lookup_forward_with_fallback bytes_at segments lookup text_beq
bare_major = refl

suffix_dropped :
    anthropic_to_bedrock (λ _. true) (codes "claude-opus-4-6[1m]") (codes "us") none
    ≡ found (codes "us.anthropic.claude-opus-4-6-v1")
unfolding anthropic_to_bedrock text_beq
suffix_dropped = refl

abbrev alias : Option Text → Text → CachedMapping
alias display id = record {
  anthropic_prefix = id;
  bedrock_suffix = codes "anthropic.claude-haiku-4-5-20251001-v1:0";
  anthropic_display = display;
}

abbrev aliases : ModelCache
aliases =
    (codes "haiku", alias none (codes "haiku"))
    ∷ (codes "claude-haiku-4-5", alias none (codes "claude-haiku-4-5"))
    ∷ []

-- A row with a display name among them makes the answer depend on the order of the map.
abbrev typo : CachedMapping
typo = alias (some (codes "claude-haiku-20250101")) (codes "claude-haiku-20250101")

order_matters :
    (lookup_reverse
        (codes "anthropic.claude-haiku-4-5-20251001-v1:0")
        (some ((typo.anthropic_prefix, typo) ∷ aliases))
      ≡ some (codes "claude-haiku-20250101"))
    × (lookup_reverse
          (codes "anthropic.claude-haiku-4-5-20251001-v1:0")
          (some (aliases ++ (typo.anthropic_prefix, typo) ∷ []))
        ≡ some (codes "claude-haiku-4-5-20251001"))
unfolding lookup_reverse derive_canonical_from_bedrock_suffix exact_match values split_at
    starts_with ends_with text_beq rsplit_at
order_matters = (refl, refl)

known_round_trip_example : All (λ a. ComesBack (λ _. true) (codes "us-gov") a.0 a.1) known
unfolding contains split_at starts_with
known_round_trip_example = known_round_trip (λ _. true) (codes "us-gov") refl

discovered_again_example :
    anthropic_to_bedrock
      (λ _. true)
      (codes "claude-opus-4-8-20260601")
      (build_mapping_row
        (codes "claude-opus-4-8-20260601")
        (codes "claude-opus-4-8")
        (codes "eu.anthropic.claude-opus-4-8-v1")).profile_prefix
      (some (
        some (
          insert_mapping
            (mapping_of (
              build_mapping_row
                (codes "claude-opus-4-8-20260601")
                (codes "claude-opus-4-8")
                (codes "eu.anthropic.claude-opus-4-8-v1")))
            cache)))
    ≡ found (codes "eu.anthropic.claude-opus-4-8-v1")
unfolding contains split_at starts_with strip_bracket
discovered_again_example =
    discovered_again (λ _. true) (codes "claude-opus-4-8-20260601") (codes "claude-opus-4-8")
      (codes "eu.anthropic.claude-opus-4-8-v1") cache refl refl refl

abbrev listed : List Text
listed =
    codes "us.anthropic.claude-fable-5-1"
    ∷ codes "us.anthropic.claude-fable-5-v2:0"
    ∷ codes "eu.anthropic.claude-fable-5-v1"
    ∷ []

-- The class of digits, for the example.
abbrev digits : Text → Bool
digits s = is_number s

select_profile-Best_example :
    Elem (codes "us.anthropic.claude-fable-5-v2:0") listed
    × Best digits
        (λ _. true)
        listed
        (codes "claude-fable-5")
        (codes "us.anthropic.claude-fable-5-v2:0")
unfolding select_profile_id ends_with is_versioned contains split_at starts_with text_beq
select_profile-Best_example =
    select_profile-Best digits (λ _. true) listed (codes "claude-fable-5")
      (codes "us.anthropic.claude-fable-5-v2:0") refl
