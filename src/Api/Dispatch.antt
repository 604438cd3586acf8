-- ===== src/Api/Dispatch.antt =====
-- How `messages` of src/api/handlers.rs sends a request: the target of an endpoint, and the failover
-- to other endpoints. What an endpoint answers is a parameter, as is what the retry without betas
-- does inside of a call; an answer is known by its status.
pub mod Failover
pub mod Prefix
mod Tests
use claude_code_aws_gateway.Prelude.{
  ℕ, Bool, true, false, not, ◌&&◌, ◌||◌, Option, none, some, List, [], ◌∷◌, ◌++◌, String, leb, eqb,
  drop, length, if◌then◌else◌,
}
use claude_code_aws_gateway.Prelude.Text.{Text, starts_with}
use claude_code_aws_gateway.Endpoint.Pool.{
  Endpoint, EndpointClient, EndpointPool, is_nil, aip_override_for, has_any_aip_overrides,
  get_fallback_endpoints, update_affinity,
}

unfoldable pub resolve_dispatch_target : Text → Option Text → Bool → Option Text → Text
resolve_dispatch_target cri_model (some arn) has_any legacy = arn
resolve_dispatch_target cri_model none has_any none = cri_model
resolve_dispatch_target cri_model none has_any (some legacy_arn) =
    if has_any then cri_model else legacy_arn

-- The target at the endpoint that was selected.
unfoldable pub target_of : Text → Text → Option EndpointClient → Text
unfolding resolve_dispatch_target aip_override_for
target_of cri_model original_model none = resolve_dispatch_target cri_model none false none
target_of cri_model original_model (some ep) =
    resolve_dispatch_target cri_model (aip_override_for ep original_model)
      (has_any_aip_overrides ep) ep.config.inference_profile_arn

-- 429, or a status of 500 to 599.
abbrev pub is_failover_eligible : ℕ → Bool
is_failover_eligible status = eqb status 429 || leb 500 status && leb status 599

unfoldable pub reprefix_model : Text → Text → Text → Text
unfolding starts_with
reprefix_model model old_prefix new_prefix =
    let dotted = old_prefix ++ (b'.' ∷ []) in
    if starts_with model dotted then new_prefix ++ (b'.' ∷ drop (length dotted) model) else model

-- The affinity of a known user.
abbrev pub remember : ℕ → Option String → ℕ → EndpointPool → EndpointPool
unfolding update_affinity
remember now none endpoint_id pool = pool
remember now (some uid) endpoint_id pool = update_affinity now uid endpoint_id pool

-- The status for the client, with the endpoint that gave it, and the calls that were made.
pub record Sent : Type 0 where
  pub status : ℕ
  pub by : Option ℕ
  pub calls : List (ℕ × Text)
  pub pool : EndpointPool

abbrev pub first_call : ℕ → EndpointClient → Text → EndpointPool → Sent
first_call status ep model pool = record {
  status = status;
  by = some ep.config.id;
  calls = (ep.config.id, model) ∷ [];
  pool = pool;
}

module _ (answer : ℕ → Text → ℕ) (now : ℕ) (user : Option String)
    (model routing_prefix : Text) where
  unfoldable pub try_fallbacks : List EndpointClient → Sent → Sent
  unfolding reprefix_model
  try_fallbacks [] sent = sent
  try_fallbacks (ep ∷ fallbacks) sent =
      let fb_model = reprefix_model model routing_prefix ep.config.routing_prefix in
      let status = answer ep.config.id fb_model in
      let next : Sent = record {
        status = status;
        by = some ep.config.id;
        calls = sent.calls ++ (ep.config.id, fb_model) ∷ [];
        pool = sent.pool;
      } in
      let rest = try_fallbacks fallbacks next in
      if is_failover_eligible status
      then rest
      else record next { pool = remember now user ep.config.id sent.pool }

  -- With a web search the first answer stands.
  unfoldable pub send : Bool → List Endpoint → Option EndpointClient → ℕ → EndpointPool → Sent
  unfolding try_fallbacks get_fallback_endpoints
  send web_search team none status pool = record {
    status = status;
    by = none;
    calls = [];
    pool = pool;
  }
  send web_search team (some ep) status pool =
      let first = first_call status ep model pool in
      if is_failover_eligible status
      then if web_search
        then first
        else try_fallbacks (get_fallback_endpoints ep.config.id team pool) first
      else record first { pool = remember now user ep.config.id pool }
