-- ===== src/Endpoint/Pool/Tests.antt =====
-- The theorems about the endpoint pool of src/endpoint/mod.rs, at a pool of three endpoints.
use claude_code_aws_gateway.Prelude.Text.{codes}
use claude_code_aws_gateway.Prelude.{
  eqb, ℕ, ◌<◌, ◌≡◌, refl, Bool, true, false, none, some, List, [], ◌∷◌, arith, length, nat_eq,
  string_eq,
}
use claude_code_aws_gateway.Prelude.Elem.{here, there}
use claude_code_aws_gateway.Prelude.Assoc.{lookup, Unique}
use claude_code_aws_gateway.Endpoint.Pool.{
  Endpoint, EndpointClient, EndpointPool, usable, candidates, clients_of, select_endpoint,
  sticky_client, default_client, update_affinity, cleanup_affinity,
}
use claude_code_aws_gateway.Endpoint.Pool.Select.{IsOffered, select-IsOffered, select-none}
use claude_code_aws_gateway.Endpoint.Pool.Affinity.{
  AffinityCall, Bounded, updates, cleans, affinity_run, affinity_run-Bounded,
  cleanup_affinity_invisible,
}
use claude_code_aws_gateway.Endpoint.Pool.Sticky.{select-update_affinity}
use claude_code_aws_gateway.Endpoint.Pool.Reload.{
  load_endpoints_inner, last_with, IsRebuilt, reload_unusable,
}
use claude_code_aws_gateway.Endpoint.Pool.RoundRobin.{strategy, turns, after, select_fair}

abbrev endpoint : ℕ → Endpoint
endpoint n = record {
  id = n;
  enabled = true;
  is_default = eqb n 2;
  routing_prefix = codes "us";
  inference_profile_arn = none;
}

abbrev client : ℕ → Bool → EndpointClient
client n healthy = record {
  config = endpoint n;
  healthy = healthy;
  available_models = [];
  aip_overrides = [];
}

abbrev team : List Endpoint
team = endpoint 3 ∷ endpoint 1 ∷ endpoint 2 ∷ []

abbrev pool : EndpointPool
pool = record {
  clients = (1, client 1 true) ∷ (2, client 2 false) ∷ (3, client 3 true) ∷ [];
  default_endpoint_id = some 2;
  user_affinity = ("ann", (1, 0)) ∷ ("bob", (3, 5)) ∷ [];
  max_affinity_entries = 2;
  round_robin_counter = 4;
}

select-IsOffered_example : IsOffered team pool (client 1 true) × (usable (client 1 true) ≡ true)
select-IsOffered_example =
    select-IsOffered 9 team (some "ann") "sticky_user" pool (client 1 true)
      (unfold select_endpoint sticky_client lookup in refl)

select-none_example : usable (client 2 false) ≡ false
select-none_example =
    select-none 9 [] none "priority" pool (client 2 false)
      (unfold select_endpoint default_client lookup in refl) (2, refl, (unfold lookup in refl))

two_entries : Bounded pool
two_entries = record {
  unique = unfold Unique lookup in (refl, (refl, tt));
  bound = omega arith;
  room = omega arith;
}

affinity_run-Bounded_example :
    Bounded (affinity_run (updates 9 "cid" 1 ∷ cleans 10 ∷ updates 11 "ann" 3 ∷ []) pool)
affinity_run-Bounded_example =
    affinity_run-Bounded (updates 9 "cid" 1 ∷ cleans 10 ∷ updates 11 "ann" 3 ∷ []) pool two_entries

-- Room for two users more.
abbrev roomy : EndpointPool
roomy = record pool { max_affinity_entries = 10 }

abbrev between : List AffinityCall
between = updates 10 "ann" 3 ∷ cleans 11 ∷ []

select-update_affinity_example :
    (select_endpoint 1_000_000_000 team
      (some "cid")
      "sticky_user"
      (affinity_run between (update_affinity 9 "cid" 1 roomy))).0
    ≡ some (client 1 true)
select-update_affinity_example =
    select-update_affinity 9 1_000_000_000 "cid" 1 team roomy (client 1 true) between (omega arith)
      (there here) (unfold lookup in refl) refl two_entries.unique (omega arith)
      (refl, (omega arith, tt))

cleanup_affinity_invisible_example :
    (select_endpoint 12 team (some "bob") "sticky_user" (cleanup_affinity 9 pool)).0
    ≡ (select_endpoint 12 team (some "bob") "sticky_user" pool).0
cleanup_affinity_invisible_example =
    cleanup_affinity_invisible 9 12 team (some "bob") "sticky_user" pool two_entries.unique
      (omega arith)

select_fair_example :
    (n : ℕ) × (n < length (turns team pool))
    × ((select_endpoint 9 team none strategy (after n 9 team none pool)).0 ≡ some (client 1 true))
select_fair_example =
    unfold candidates clients_of lookup in
    select_fair 9 team none pool (client 1 true) (there here) (omega arith)

reload_unusable_example :
    IsRebuilt
      (λ _. none)
      1
      pool.clients
      (last_with 1 team none)
      (lookup 1 (load_endpoints_inner (λ _. none) team pool).clients)
    × ((select_endpoint 9 team
          (some "ann")
          "priority"
          (load_endpoints_inner (λ _. none) team pool)).0
        ≡ none)
reload_unusable_example = reload_unusable (λ _. none) team pool 1 9 team (some "ann") "priority"
