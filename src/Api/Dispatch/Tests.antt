-- ===== src/Api/Dispatch/Tests.antt =====
-- Requests and their failover.
use claude_code_aws_gateway.Prelude.{
  ℕ, ◌≡◌, refl, true, false, none, some, List, [], ◌∷◌, find, eqb, if◌then◌else◌, nat_eq, string_eq,
}
use claude_code_aws_gateway.Prelude.Text.{Text, codes, text_beq, starts_with}
use claude_code_aws_gateway.Prelude.Assoc.{lookup}
use claude_code_aws_gateway.Translate.Models.{anthropic_to_bedrock, found}
use claude_code_aws_gateway.Endpoint.Pool.{
  Endpoint, EndpointClient, EndpointPool, new, aip_override_for, priority, get_fallback_endpoints,
}
use claude_code_aws_gateway.Endpoint.Pool.Candidates.{InOrder}
use claude_code_aws_gateway.Api.Dispatch.{
  send, try_fallbacks, first_call, reprefix_model, target_of,
}
use claude_code_aws_gateway.Api.Dispatch.Failover.{Served, Offered, serves, send-Served}
use claude_code_aws_gateway.Api.Dispatch.Prefix.{reprefix-anthropic_to_bedrock}

abbrev endpoint : ℕ → Text → Endpoint
endpoint n prefix = record {
  id = n;
  enabled = true;
  is_default = false;
  routing_prefix = prefix;
  inference_profile_arn = none;
}

abbrev client : ℕ → Text → EndpointClient
client n prefix = record {
  config = endpoint n prefix;
  healthy = true;
  available_models = [];
  aip_overrides = [];
}

abbrev team : List Endpoint
team = endpoint 1 (codes "us") ∷ endpoint 2 (codes "eu") ∷ endpoint 3 (codes "au") ∷ []

abbrev pool : EndpointPool
pool = record new {
  clients =
      (1, client 1 (codes "us")) ∷ (2, client 2 (codes "eu")) ∷ (3, client 3 (codes "au")) ∷ [];
}

-- The second endpoint throttles too.
abbrev answer : ℕ → Text → ℕ
answer id model = if eqb id 3 then 200 else 429

abbrev sonnet : Text
sonnet = codes "us.anthropic.claude-sonnet-4-6"

served_by :
    (send answer 7
      (some "ann")
      sonnet
      (codes "us")
      false
      team
      (some (client 1 (codes "us")))
      503
      pool).calls
    ≡ (1, sonnet)
      ∷ (2, codes "eu.anthropic.claude-sonnet-4-6")
      ∷ (3, codes "au.anthropic.claude-sonnet-4-6")
      ∷ []
unfolding send try_fallbacks reprefix_model starts_with get_fallback_endpoints lookup
served_by = refl

send-Served_example :
    Served answer 7
      (some "ann")
      sonnet
      (codes "us")
      (get_fallback_endpoints 1 team pool)
      (first_call 503 (client 1 (codes "us")) sonnet pool)
      (find (serves answer 7 (some "ann") sonnet (codes "us")) (get_fallback_endpoints 1 team pool))
      (send answer 7
        (some "ann")
        sonnet
        (codes "us")
        false
        team
        (some (client 1 (codes "us")))
        503
        pool)
    × Offered team pool (client 1 (codes "us")) (
        find
          (serves answer 7 (some "ann") sonnet (codes "us"))
          (get_fallback_endpoints 1 team pool))
    × InOrder (priority team) (get_fallback_endpoints 1 team pool)
send-Served_example =
    send-Served answer 7 (some "ann") sonnet (codes "us") team (client 1 (codes "us")) 503 pool refl

reprefix-anthropic_to_bedrock_example :
    anthropic_to_bedrock (λ _. true) (codes "claude-sonnet-4-6") (codes "eu") none
    ≡ found (
        reprefix_model
          (target_of sonnet (codes "claude-sonnet-4-6") (some (client 1 (codes "us"))))
          (codes "us")
          (codes "eu"))
unfolding anthropic_to_bedrock text_beq aip_override_for lookup
reprefix-anthropic_to_bedrock_example =
    reprefix-anthropic_to_bedrock (λ _. true) (codes "claude-sonnet-4-6") (codes "us") (codes "eu")
      sonnet none (client 1 (codes "us")) refl refl (refl, refl)

-- The target of an override does not start with the prefix, so it goes to the fallback unchanged.
same_arn :
    reprefix_model
      (codes "arn:aws:bedrock:us-east-1:1:application-inference-profile/x")
      (codes "us")
      (codes "eu")
    ≡ codes "arn:aws:bedrock:us-east-1:1:application-inference-profile/x"
unfolding reprefix_model starts_with
same_arn = refl

overridden :
    target_of sonnet (codes "claude-sonnet-4-6") (
      some (record (client 1 (codes "us")) {
        aip_overrides = (codes "claude-sonnet-4-6", codes "arn:aip") ∷ [];
      }))
    ≡ codes "arn:aip"
unfolding target_of lookup text_beq
overridden = refl
