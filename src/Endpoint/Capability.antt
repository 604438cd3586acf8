-- ===== src/Endpoint/Capability.antt =====
-- The capability cache of `EndpointClient` in src/endpoint/mod.rs, with the probe helpers, and the
-- filter over it in src/translate/betas.rs. Instants are counted in nanoseconds, and a call takes
-- the time at which it is made. Case is folded for ASCII letters.
pub mod Laws
pub mod Filter
mod Tests
use claude_code_aws_gateway.Prelude.{
  ℕ, ◌+◌, ◌*◌, Bool, true, false, not, ◌&&◌, Option, none, some, List, [], ◌∷◌, ◌++◌, ltb, leb, any,
  retain, ◌==◌, pair_eq, if◌then◌else◌,
}
use claude_code_aws_gateway.Prelude.Text.{Text, codes, text_eq, contains, to_lower, ends_with}
use claude_code_aws_gateway.Prelude.Assoc.{Assoc, lookup, insert, remove}

pub data ProbeSource : Type 0 where
  seed_probe request_success request_rejection admin_override : ProbeSource

abbrev pub is_admin : ProbeSource → Bool
is_admin admin_override = true
is_admin _ = false

pub record CapabilityEntry : Type 0 where
  pub supported : Bool
  pub learned_at : ℕ
  pub source : ProbeSource

-- The entries by profile and beta.
abbrev pub Capabilities : Type 0
Capabilities = Assoc (Text × Text) CapabilityEntry

-- 24 hours.
abbrev pub capability_ttl : ℕ
capability_ttl = 24 * 60 * 60 * 1_000_000_000

abbrev pub suffix_betas : List Text
suffix_betas = codes "context-1m-2025-08-07" ∷ []

abbrev pub expired : ℕ → CapabilityEntry → Bool
expired now entry = leb (entry.learned_at + capability_ttl) now

abbrev pub current : ℕ → Option CapabilityEntry → Option Bool
current now none = none
current now (some entry) =
    if is_admin entry.source
    then some entry.supported
    else if expired now entry
    then none
    else some entry.supported

unfoldable pub is_beta_supported : ℕ → Text → Text → Capabilities → Option Bool
is_beta_supported now profile beta m = current now (lookup (profile, beta) m)

-- An admin override is there and the new source is another.
abbrev pub is_protected : Option CapabilityEntry → ProbeSource → Bool
is_protected none source = false
is_protected (some existing) source = is_admin existing.source && not (is_admin source)

abbrev pub mark : Bool → ℕ → Text → Text → ProbeSource → Capabilities → Capabilities
mark supported now profile beta source m =
    if is_protected (lookup (profile, beta) m) source
    then m
    else insert (profile, beta)
        (record { supported = supported; learned_at = now; source = source }) m

unfoldable pub mark_supported : ℕ → Text → Text → ProbeSource → Capabilities → Capabilities
mark_supported = mark true

unfoldable pub mark_unsupported : ℕ → Text → Text → ProbeSource → Capabilities → Capabilities
mark_unsupported = mark false

unfoldable pub forget_capability : Text → Text → Capabilities → Capabilities
forget_capability profile beta m = remove (profile, beta) m

abbrev pub needs_probe : ℕ → Option CapabilityEntry → Bool
needs_probe now none = true
needs_probe now (some entry) = if is_admin entry.source then false else expired now entry

-- The inner loop, over the betas of `SUFFIX_BETA_MAP`.
abbrev pub seed_pairs : ℕ → Text → List Text → Capabilities → List (Text × Text)
seed_pairs now profile [] m = []
seed_pairs now profile (beta ∷ betas) m =
    let rest = seed_pairs now profile betas m in
    if needs_probe now (lookup (profile, beta) m) then (profile, beta) ∷ rest else rest

unfoldable pub expired_seed_pairs : ℕ → List Text → Capabilities → List (Text × Text)
expired_seed_pairs now [] m = []
expired_seed_pairs now (profile ∷ profiles) m =
    seed_pairs now profile suffix_betas m ++ expired_seed_pairs now profiles m

-- `EndpointClient::supports_model` over its available models.
unfoldable pub supports_model : List Text → Text → Bool
supports_model models bedrock_model_id = any (λ m. ends_with m bedrock_model_id) models

pub data ProbeOutcome : Type 0 where
  supported unsupported inconclusive : ProbeOutcome

unfoldable pub classify_probe_outcome : Bool → Bool → Text → Text → ProbeOutcome
classify_probe_outcome success is_validation_exception error_message beta =
    if success
    then supported
    else if is_validation_exception && contains (to_lower error_message) (to_lower beta)
    then unsupported
    else inconclusive

unfoldable pub apply_probe_outcome : ℕ → Text → Text → ProbeOutcome → Capabilities → Capabilities
unfolding mark_supported mark_unsupported
apply_probe_outcome now profile beta supported m = mark_supported now profile beta seed_probe m
apply_probe_outcome now profile beta unsupported m = mark_unsupported now profile beta seed_probe m
apply_probe_outcome now profile beta inconclusive m = m

unfoldable pub parse_rejected_betas : Text → List Text → List Text
parse_rejected_betas error_message candidates =
    let lower = to_lower error_message in retain (λ c. contains lower (to_lower c)) candidates

pub record BetaFilterResult : Type 0 where
  pub kept : List Text
  pub dropped : List Text
  pub unknown : List Text

abbrev pub sort_beta : Text → Option Bool → BetaFilterResult → BetaFilterResult
sort_beta b (some true) r = record r { kept = b ∷ r.kept }
sort_beta b (some false) r = record r { dropped = b ∷ r.dropped }
sort_beta b none r = record r { kept = b ∷ r.kept; unknown = b ∷ r.unknown }

unfoldable pub filter_betas_by_cache : ℕ → Text → List Text → Capabilities → BetaFilterResult
unfolding is_beta_supported
filter_betas_by_cache now profile [] m = record { kept = []; dropped = []; unknown = [] }
filter_betas_by_cache now profile (b ∷ incoming) m =
    sort_beta b (is_beta_supported now profile b m) (filter_betas_by_cache now profile incoming m)
