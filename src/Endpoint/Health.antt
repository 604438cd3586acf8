-- ===== src/Endpoint/Health.antt =====
-- The health of an endpoint in src/endpoint/mod.rs: `compute_health_state` and the choice of the
-- profiles to probe. The call of Bedrock that resolves an inference profile is an argument, which
-- gives nothing on an error; the overrides are the ARNs in the order of the map's iteration.
pub mod Union
mod Tests
use claude_code_aws_gateway.Prelude.{
  ℕ, Bool, true, false, not, ◌&&◌, Option, none, some, List, [], ◌∷◌, ◌++◌, any, drop, length, ◌==◌,
  if◌then◌else◌,
}
use claude_code_aws_gateway.Prelude.Text.{
  Text, codes, text_eq, starts_with, split_at, trim, eq_ignore_case,
}

pub record HealthState : Type 0 where
  pub healthy : Bool
  pub available_models : List Text
  pub aip_derived_profile_ids : List Text

abbrev pub state : Bool → List Text → List Text → HealthState
state healthy models derived = record {
  healthy = healthy;
  available_models = models;
  aip_derived_profile_ids = derived;
}

abbrev pub failed : HealthState
failed = state false [] []

abbrev pub segment : Text
segment = codes "foundation-model/"

abbrev pub tail_of : Option (Text × Text) → Option Text
tail_of none = none
tail_of (some (before, match)) = elim (drop (length segment) match) [
  | [] ↦ none
  | c ∷ s ↦ some (c ∷ s)
]

-- Of src/translate/models.rs; the error texts are left out.
unfoldable pub parse_foundation_model_from_arn : Text → Option Text
unfolding split_at
parse_foundation_model_from_arn arn = tail_of (split_at arn segment)

abbrev pub bind : Option Text → (Text → Option Text) → Option Text
bind none f = none
bind (some t) f = f t

abbrev pub member : List Text → Text → Bool
member union model = any (λ m. m == model) union

-- The loop that seeds the union.
unfoldable pub seed : List Text → List Text → List Text
seed union [] = union
seed union (model ∷ cri) = seed (if member union model then union else union ++ model ∷ []) cri

unfoldable pub is_covered : List Text → Text → Bool
unfolding starts_with
is_covered union candidate = any (λ existing. starts_with candidate existing) union

module _ (get_foundation_model : Text → Option Text) (routing_prefix : Text) where
  -- The model id that an ARN stands for.
  unfoldable pub resolve : Text → Option Text
  unfolding parse_foundation_model_from_arn
  resolve arn =
      bind (bind (get_foundation_model arn) parse_foundation_model_from_arn)
        (λ suffix. some (routing_prefix ++ (b'.' ∷ suffix)))

  -- The loop over the overrides, from a union and what is derived of it.
  unfoldable pub add_overrides : List Text → List Text → List Text → HealthState
  unfolding resolve is_covered
  add_overrides union derived [] = state true union derived
  add_overrides union derived (arn ∷ arns) = elim (resolve arn) [
    | none ↦ failed
    | some id ↦
        let skipped = add_overrides union derived arns in
        let added = add_overrides (union ++ id ∷ []) (derived ++ id ∷ []) arns in
        if is_covered union id then skipped else added
  ]

  abbrev pub from_legacy : Option Text → HealthState
  from_legacy none = failed
  from_legacy (some id) = state true (id ∷ []) (id ∷ [])

  abbrev pub from_cri : List Text → List Text → Option Text → HealthState
  from_cri cri [] none = state true cri []
  from_cri cri [] (some legacy_arn) = from_legacy (resolve legacy_arn)
  from_cri cri (arn ∷ arns) legacy = add_overrides (seed [] cri) [] (arn ∷ arns)

  unfoldable pub compute_health_state : Option (List Text) → List Text → Option Text → HealthState
  unfolding resolve seed add_overrides
  compute_health_state none overrides legacy = failed
  compute_health_state (some cri) overrides legacy = from_cri cri overrides legacy

unfoldable pub should_probe_profile : Text → List Text → Bool → Bool
should_probe_profile profile_id derived enabled =
    if enabled then true else not (member derived profile_id)

-- ASCII white space is trimmed.
abbrev pub parse_bool : Option Text → Option Bool
parse_bool none = none
parse_bool (some s) =
    if eq_ignore_case (trim s) (codes "true")
    then some true
    else if eq_ignore_case (trim s) (codes "false")
    then some false
    else none

abbrev pub first_of : Option Bool → Option Bool → Bool
first_of (some v) o = v
first_of none (some v) = v
first_of none none = true

unfoldable pub effective_capability_probe_aip : Option Text → Option Text → Bool
unfolding trim eq_ignore_case
effective_capability_probe_aip db_setting env_value =
    first_of (parse_bool db_setting) (parse_bool env_value)
