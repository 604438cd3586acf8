-- ===== src/Endpoint/Pool.antt =====
-- `EndpointPool` of src/endpoint/mod.rs. Instants are counted in nanoseconds, and a call takes the
-- time at which it is made. Of an endpoint's configuration only what
-- the routing reads is kept. A shared client is read under the map's lock, so a call sees one state of it.
pub mod Candidates
pub mod Select
pub mod Affinity
pub mod Sticky
pub mod RoundRobin
pub mod Reload
mod Tests
use claude_code_aws_gateway.Prelude.{
  ℕ, suc, ◌+◌, ◌-◌, ◌*◌, ◌/◌, ◌%◌, ◌^◌, Bool, true, false, not, ◌&&◌, Option, none, some, List, [],
  ◌∷◌, map, String, ltb, leb, eqb, length, retain, any, find, get_elem?, ◌==◌, nat_eq, string_eq,
  if◌then◌else◌,
}
use claude_code_aws_gateway.Prelude.Text.{Text, text_eq}
use claude_code_aws_gateway.Prelude.Assoc.{Assoc, lookup, insert, remove, retain_values}
use claude_code_aws_gateway.Endpoint.Capability.{supports_model}

pub record Endpoint : Type 0 where
  pub id : ℕ
  pub enabled : Bool
  pub is_default : Bool
  pub routing_prefix : Text
  pub inference_profile_arn : Option Text

pub record EndpointClient : Type 0 where
  pub config : Endpoint
  pub healthy : Bool
  pub available_models : List Text
  pub aip_overrides : Assoc Text Text

-- An affinity is an endpoint id and the time of its last use.
pub record EndpointPool : Type 0 where
  pub clients : Assoc ℕ EndpointClient
  pub default_endpoint_id : Option ℕ
  pub user_affinity : Assoc String (ℕ × ℕ)
  pub max_affinity_entries : ℕ
  pub round_robin_counter : ℕ

abbrev pub new : EndpointPool
new = record {
  clients = [];
  default_endpoint_id = none;
  user_affinity = [];
  max_affinity_entries = 10_000;
  round_robin_counter = 0;
}

abbrev pub affinity_ttl_secs : ℕ
affinity_ttl_secs = 1800

abbrev pub nanos_per_sec : ℕ
nanos_per_sec = 1_000_000_000

-- `last_seen.elapsed().as_secs() < AFFINITY_TTL_SECS`
abbrev pub is_recent : ℕ → ℕ → Bool
is_recent now last_seen = ltb ((now - last_seen) / nanos_per_sec) affinity_ttl_secs

abbrev pub usable : EndpointClient → Bool
usable c = c.config.enabled && c.healthy

abbrev pub bind {ℓ κ} : {A : Type ℓ} {B : Type κ} → Option A → (A → Option B) → Option B
bind none f = none
bind (some a) f = f a

abbrev pub keep_if {ℓ} : {A : Type ℓ} → (A → Bool) → A → Option A
keep_if p a = if p a then some a else none

-- `iter().filter_map(|id| clients.get(id))`
unfoldable pub clients_of : List ℕ → Assoc ℕ EndpointClient → List EndpointClient
clients_of [] m = []
clients_of (id ∷ ids) m =
    let rest = clients_of ids m in elim (lookup id m) [ none ↦ rest | some c ↦ c ∷ rest ]

-- `team_endpoints.iter().position(|e| e.id == id)`
abbrev pub position : ℕ → List Endpoint → Option ℕ
position id [] = none
position id (e ∷ es) =
    let rest = bind (position id es) (λ n. some (suc n)) in if e.id == id then some 0 else rest

abbrev pub usize_max : ℕ
usize_max = 2 ^ 64 - 1

abbrev pub unwrap_or : Option ℕ → ℕ → ℕ
unwrap_or none d = d
unwrap_or (some n) d = n

abbrev pub priority : List Endpoint → EndpointClient → ℕ
priority team c = unwrap_or (position c.config.id team) usize_max

-- `sort_by_key`, which keeps the order of equal keys.
abbrev pub insert_by :
    (EndpointClient → ℕ) → EndpointClient → List EndpointClient → List EndpointClient
insert_by key c [] = c ∷ []
insert_by key c (d ∷ ds) =
    let rest = insert_by key c ds in if leb (key c) (key d) then c ∷ d ∷ ds else d ∷ rest

abbrev pub sort_by_key : (EndpointClient → ℕ) → List EndpointClient → List EndpointClient
sort_by_key key [] = []
sort_by_key key (c ∷ cs) = insert_by key c (sort_by_key key cs)

abbrev pub ids_of : List Endpoint → List ℕ
ids_of = map (λ (e : Endpoint). e.id)

abbrev pub is_nil {ℓ} : {A : Type ℓ} → List A → Bool
is_nil [] = true
is_nil (_ ∷ _) = false

-- The candidates in the order of the team's priority.
unfoldable pub candidates : List Endpoint → EndpointPool → List EndpointClient
unfolding clients_of
candidates team pool = sort_by_key (priority team) (clients_of (ids_of team) pool.clients)

-- An affinity entry, taken while it is recent and its endpoint is still usable by the team.
abbrev pub recall : ℕ → List ℕ → Assoc ℕ EndpointClient → ℕ × ℕ → Option EndpointClient
recall now candidate_ids clients (ep_id, last_seen) =
    if is_recent now last_seen && any (λ id. id == ep_id) candidate_ids
    then bind (lookup ep_id clients) (keep_if usable)
    else none

unfoldable pub sticky_client : ℕ → List ℕ → String → EndpointPool → Option EndpointClient
sticky_client now candidate_ids identity pool =
    bind (lookup identity pool.user_affinity) (recall now candidate_ids pool.clients)

abbrev pub affine_client :
    ℕ → List Endpoint → Option String → String → EndpointPool → Option EndpointClient
affine_client now team none strategy pool = none
affine_client now team (some identity) strategy pool =
    if strategy == "sticky_user" then sticky_client now (ids_of team) identity pool else none

abbrev pub usize_mod : ℕ
usize_mod = 2 ^ 64

-- `fetch_add` wraps.
abbrev pub round_robin : List EndpointClient → EndpointPool → Option EndpointClient × EndpointPool
round_robin [] pool = (none, pool)
round_robin (c ∷ cs) pool = (
  get_elem? (c ∷ cs) (pool.round_robin_counter % length (c ∷ cs)),
  record pool { round_robin_counter = (pool.round_robin_counter + 1) % usize_mod },
)

abbrev pub route :
    String → List EndpointClient → EndpointPool → Option EndpointClient × EndpointPool
route strategy cands pool =
    if strategy == "round_robin"
    then round_robin (retain usable cands) pool
    else (find usable cands, pool)

unfoldable pub default_client : EndpointPool → Option EndpointClient
default_client pool =
    bind pool.default_endpoint_id λ id. bind (lookup id pool.clients) (keep_if usable)

unfoldable pub select_endpoint :
    ℕ → List Endpoint → Option String → String → EndpointPool → Option EndpointClient × EndpointPool
unfolding candidates sticky_client default_client
select_endpoint now team user_identity strategy pool =
    if is_nil pool.clients
    then (none, pool)
    else if is_nil team
    then (default_client pool, pool)
    else elim (affine_client now team user_identity strategy pool) [
      | some c ↦ (some c, pool)
      | none ↦ route strategy (candidates team pool) pool
    ]

unfoldable pub get_fallback_endpoints : ℕ → List Endpoint → EndpointPool → List EndpointClient
unfolding clients_of
get_fallback_endpoints primary_id team pool =
    if is_nil team
    then []
    else sort_by_key (priority team) (
        retain usable
          (clients_of (retain (λ id. not (id == primary_id)) (ids_of team)) pool.clients))

-- The endpoints whose client is loaded and lists a model that ends in `bedrock_model`.
unfoldable pub filter_by_model : List Endpoint → Text → EndpointPool → List Endpoint
unfolding supports_model
filter_by_model team bedrock_model pool =
    retain
      (λ (ep : Endpoint). elim (lookup ep.id pool.clients) [
        | none ↦ false
        | some c ↦ supports_model c.available_models bedrock_model
      ])
      team

-- The key of an entry used longest ago; the first such in the order of the map.
abbrev pub older : String × (ℕ × ℕ) → Option (String × (ℕ × ℕ)) → Option (String × (ℕ × ℕ))
older e none = some e
older e (some f) = if leb e.1.1 f.1.1 then some e else some f

unfoldable pub oldest : Assoc String (ℕ × ℕ) → Option (String × (ℕ × ℕ))
oldest [] = none
oldest (e ∷ m) = older e (oldest m)

abbrev pub evict_oldest : Assoc String (ℕ × ℕ) → Assoc String (ℕ × ℕ)
evict_oldest m = elim (oldest m) [ none ↦ m | some e ↦ remove e.0 m ]

abbrev pub is_some {ℓ} : {A : Type ℓ} → Option A → Bool
is_some none = false
is_some (some _) = true

unfoldable pub update_affinity : ℕ → String → ℕ → EndpointPool → EndpointPool
unfolding oldest
update_affinity now user_identity endpoint_id pool =
    let affinity = pool.user_affinity in
    let room =
      if leb pool.max_affinity_entries (length affinity)
        && not (is_some (lookup user_identity affinity))
      then evict_oldest affinity
      else affinity in
    record pool { user_affinity = insert user_identity (endpoint_id, now) room }

unfoldable pub cleanup_affinity : ℕ → EndpointPool → EndpointPool
cleanup_affinity now pool = record pool {
  user_affinity = retain_values (λ (v : ℕ × ℕ). is_recent now v.1) pool.user_affinity;
}

unfoldable pub aip_override_for : EndpointClient → Text → Option Text
aip_override_for client model_id = lookup model_id client.aip_overrides

abbrev pub has_any_aip_overrides : EndpointClient → Bool
has_any_aip_overrides client = not (is_nil client.aip_overrides)

unfoldable pub get_client : ℕ → EndpointPool → Option EndpointClient
get_client id pool = lookup id pool.clients

abbrev pub mark_unhealthy : EndpointClient → EndpointClient
mark_unhealthy client = record client { healthy = false }

abbrev pub mark_healthy : EndpointClient → EndpointClient
mark_healthy client = record client { healthy = true }
