-- ===== src/Endpoint/Stats.antt =====
-- src/endpoint/stats.rs: the counters of each endpoint over the last hour. Instants are counted in
-- nanoseconds, a call takes the time at which it is made, and an endpoint is the number of its
-- uuid. A call holds the write lock while it changes a counter, so it is one step.
pub mod Buckets
pub mod Log
mod Tests
use claude_code_aws_gateway.Prelude.{
  ℕ, ◌+◌, ◌-◌, ◌/◌, ◌%◌, ◌^◌, Bool, List, [], ◌∷◌, Option, none, some, ltb, retain, nat_eq,
  if◌then◌else◌,
}
use claude_code_aws_gateway.Prelude.Assoc.{Assoc, lookup, insert, map_values}

-- The start of each bucket with its count, the newest last.
abbrev pub Buckets : Type 0
Buckets = List (ℕ × ℕ)

pub record EndpointCounters : Type 0 where
  pub throttle_buckets : Buckets
  pub error_buckets : Buckets
  pub request_count : ℕ

abbrev pub default : EndpointCounters
default = record { throttle_buckets = []; error_buckets = []; request_count = 0 }

pub record EndpointStatSnapshot : Type 0 where
  pub throttle_count_1h : ℕ
  pub error_count_1h : ℕ
  pub request_count : ℕ

abbrev pub EndpointStats : Type 0
EndpointStats = Assoc ℕ EndpointCounters

abbrev pub bucket_window_secs : ℕ
bucket_window_secs = 60

abbrev pub retention_secs : ℕ
retention_secs = 3600

-- `now.duration_since(t).as_secs()`
abbrev pub secs_since : ℕ → ℕ → ℕ
secs_since now t = (now - t) / 1_000_000_000

-- `u64` addition, of `+=`, of `sum` and of `fetch_add`.
abbrev pub add_u64 : ℕ → ℕ → ℕ
add_u64 a b = (a + b) % 2 ^ 64

-- Counts in the last bucket if that is current, and in a new one otherwise.
unfoldable pub record_in : ℕ → Buckets → Buckets
record_in now [] = (now, 1) ∷ []
record_in now ((start, count) ∷ []) =
    if ltb (secs_since now start) bucket_window_secs
    then (start, add_u64 count 1) ∷ []
    else (start, count) ∷ (now, 1) ∷ []
record_in now (b ∷ c ∷ buckets) = b ∷ record_in now (c ∷ buckets)

-- `entry(endpoint_id).or_default()`
abbrev pub or_default : Option EndpointCounters → EndpointCounters
or_default none = default
or_default (some c) = c

unfoldable pub record_throttle : ℕ → ℕ → EndpointStats → EndpointStats
unfolding record_in
record_throttle now endpoint_id stats =
    let c = or_default (lookup endpoint_id stats) in
    insert endpoint_id (record c { throttle_buckets = record_in now c.throttle_buckets }) stats

unfoldable pub record_error : ℕ → ℕ → EndpointStats → EndpointStats
unfolding record_in
record_error now endpoint_id stats =
    let c = or_default (lookup endpoint_id stats) in
    insert endpoint_id (record c { error_buckets = record_in now c.error_buckets }) stats

unfoldable pub record_request : ℕ → EndpointStats → EndpointStats
record_request endpoint_id stats =
    let c = or_default (lookup endpoint_id stats) in
    insert endpoint_id (record c { request_count = add_u64 c.request_count 1 }) stats

abbrev pub is_retained : ℕ → ℕ × ℕ → Bool
is_retained now b = ltb (secs_since now b.0) retention_secs

abbrev pub sum_u64 : Buckets → ℕ
sum_u64 [] = 0
sum_u64 ((start, count) ∷ buckets) = add_u64 count (sum_u64 buckets)

unfoldable pub snapshot : ℕ → EndpointCounters → EndpointStatSnapshot
snapshot now c = record {
  throttle_count_1h = sum_u64 (retain (is_retained now) c.throttle_buckets);
  error_count_1h = sum_u64 (retain (is_retained now) c.error_buckets);
  request_count = c.request_count;
}

unfoldable pub get_all_stats : ℕ → EndpointStats → Assoc ℕ EndpointStatSnapshot
unfolding snapshot
get_all_stats now stats = map_values (snapshot now) stats

unfoldable pub evict : ℕ → EndpointCounters → EndpointCounters
evict now c = record c {
  throttle_buckets = retain (is_retained now) c.throttle_buckets;
  error_buckets = retain (is_retained now) c.error_buckets;
}

unfoldable pub cleanup : ℕ → EndpointStats → EndpointStats
unfolding evict
cleanup now stats = map_values (evict now) stats
