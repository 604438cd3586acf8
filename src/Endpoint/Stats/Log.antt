-- ===== src/Endpoint/Stats/Log.antt =====
-- src/endpoint/stats.rs refines a log: a specification that keeps the time of every event.
use claude_code_aws_gateway.Prelude.{
  ℕ, ◌+◌, ◌^◌, ◌≤◌, ◌<◌, ◌≡◌, refl, List, [], ◌∷◌, Option, none, some, arith, length, ◌==◌, nat_eq,
  inl, inr, Bool-cases, if◌then◌else◌,
}
use claude_code_aws_gateway.Prelude.Assoc.{
  insert, lookup, lookup-insert, lookup-map_values, map_option,
}
use claude_code_aws_gateway.Endpoint.Stats.{
  EndpointStats, EndpointCounters, EndpointStatSnapshot, or_default, record_throttle, record_error,
  record_request, snapshot, get_all_stats, evict, cleanup,
}
use claude_code_aws_gateway.Endpoint.Stats.Buckets.{
  within, surely, at_most, Tally, Tally-nil, Tally-later, Tally-evict, Tally-record, Tally-sum,
}

-- The calls that change the statistics, with the time at which each is made.
pub data Call : Type 0 where
  throttles errs requests : ℕ → ℕ → Call
  cleans : ℕ → Call

abbrev pub time : Call → ℕ
time (throttles now _) = now
time (errs now _) = now
time (requests now _) = now
time (cleans now) = now

unfoldable pub step : Call → EndpointStats → EndpointStats
step (throttles now k) stats = record_throttle now k stats
step (errs now k) stats = record_error now k stats
step (requests now k) stats = record_request k stats
step (cleans now) stats = cleanup now stats

unfoldable pub run : List Call → EndpointStats → EndpointStats
unfolding step
run [] stats = stats
run (c ∷ calls) stats = run calls (step c stats)

-- The specification: every event of one endpoint, the newest first.
pub record Log : Type 0 where
  pub throttled : List ℕ
  pub erred : List ℕ
  pub requested : List ℕ

abbrev pub blank : Log
blank = record { throttled = []; erred = []; requested = [] }

abbrev pub write : ℕ → Call → Log → Log
write k (throttles now j) log =
    if j == k then record log { throttled = now ∷ log.throttled } else log
write k (errs now j) log = if j == k then record log { erred = now ∷ log.erred } else log
write k (requests now j) log =
    if j == k then record log { requested = now ∷ log.requested } else log
write k (cleans now) log = log

abbrev pub replay : ℕ → List Call → Log → Log
replay k [] log = log
replay k (c ∷ calls) log = replay k calls (write k c log)

-- The calls are made in this order, from time `from` to time `until`.
abbrev pub InOrder : ℕ → List Call → ℕ → Type 0
InOrder from [] until = from ≤ until
InOrder from (c ∷ calls) until = (from ≤ time c) × InOrder (time c) calls until

abbrev pub size : Log → ℕ
size log = length log.throttled + length log.erred + length log.requested

-- What an answer may be by the specification. An endpoint without an entry has no event.
pub record Shows (now : ℕ) (log : Log) (s : EndpointStatSnapshot) : Type 0 where
  pub throttle_low : within surely now log.throttled ≤ s.throttle_count_1h
  pub throttle_high : s.throttle_count_1h ≤ within at_most now log.throttled
  pub error_low : within surely now log.erred ≤ s.error_count_1h
  pub error_high : s.error_count_1h ≤ within at_most now log.erred
  pub requests : s.request_count ≡ length log.requested

abbrev pub IsAnswer : ℕ → Log → Option EndpointStatSnapshot → Type 0
IsAnswer now log none = size log ≡ 0
IsAnswer now log (some s) = Shows now log s

record Refines (now : ℕ) (log : Log) (o : Option EndpointCounters) : Type 0 where
  throttled : Tally now log.throttled (or_default o).throttle_buckets
  erred : Tally now log.erred (or_default o).error_buckets
  requested : (or_default o).request_count ≡ length log.requested
  present : o ≡ none → size log ≡ 0

Refines-later :
    (now later : ℕ) (log : Log) (o : Option EndpointCounters)
    → now ≤ later
    → Refines now log o
    → Refines later log o
Refines-later now later log o h r = record {
  throttled = Tally-later now later log.throttled _ h r.throttled;
  erred = Tally-later now later log.erred _ h r.erred;
  requested = r.requested;
  present = r.present;
}

Refines-evict :
    (now : ℕ) (log : Log) (o : Option EndpointCounters)
    → Refines now log o
    → Refines now log (map_option (evict now) o)
Refines-evict now log none r = r
Refines-evict now log (some c) r =
    unfold evict in
    record {
      throttled = Tally-evict now log.throttled _ r.throttled;
      erred = Tally-evict now log.erred _ r.erred;
      requested = r.requested;
      present = λ e. absurd (ground arith);
    }

-- A call for endpoint j, seen at endpoint k.
insert-Refines :
    (k j now at : ℕ) (new : EndpointCounters) (stats : EndpointStats) (log written : Log)
    → now ≤ at
    → Refines now log (lookup k stats)
    → (j ≡ k → Refines at log (lookup j stats) → Refines at written (some new))
    → Refines at (if j == k then written else log) (lookup k (insert j new stats))
insert-Refines k j now at new stats log written h r f =
    let later = Refines-later now at log _ h r in
    rw (lookup-insert j k new stats) (elim (Bool-cases (j == k)) [
      | inr e ↦ rw e later
      | inl e ↦ let same : j ≡ k = ground arith in rw e (f same (rw same later))
    ])

step-Refines :
    (k now : ℕ) (c : Call) (stats : EndpointStats) (log : Log)
    → now ≤ time c
    → size log + 1 < 2 ^ 64
    → Refines now log (lookup k stats)
    → Refines (time c) (write k c log) (lookup k (step c stats))
unfolding step record_throttle record_error record_request cleanup
step-Refines k now (throttles at j) stats log h small r =
    insert-Refines k j now at _ stats log _ h r λ same l. record {
      throttled = Tally-record at log.throttled _ (omega (arith, small)) l.throttled;
      erred = l.erred;
      requested = l.requested;
      present = λ e. absurd (ground arith);
    }
step-Refines k now (errs at j) stats log h small r =
    insert-Refines k j now at _ stats log _ h r λ same l. record {
      throttled = l.throttled;
      erred = Tally-record at log.erred _ (omega (arith, small)) l.erred;
      requested = l.requested;
      present = λ e. absurd (ground arith);
    }
step-Refines k now (requests at j) stats log h small r =
    insert-Refines k j now at _ stats log _ h r λ same l. record {
      throttled = l.throttled;
      erred = l.erred;
      requested = omega (arith, l.requested, small);
      present = λ e. absurd (ground arith);
    }
step-Refines k now (cleans at) stats log h small r =
    rw (lookup-map_values (evict at) k stats)
      (Refines-evict at log (lookup k stats) (Refines-later now at log _ h r))

write-size : (k : ℕ) (c : Call) (log : Log) → size (write k c log) ≤ size log + 1
write-size k (throttles at j) log = ground arith
write-size k (errs at j) log = ground arith
write-size k (requests at j) log = ground arith
write-size k (cleans at) log = omega arith

run-Refines :
    (k now until : ℕ) (calls : List Call) (stats : EndpointStats) (log : Log)
    → InOrder now calls until
    → size log + length calls < 2 ^ 64
    → Refines now log (lookup k stats)
    → Refines until (replay k calls log) (lookup k (run calls stats))
unfolding run
run-Refines k now until [] stats log order small r = Refines-later now until log _ order r
run-Refines k now until (c ∷ calls) stats log order small r =
    run-Refines k (time c) until calls (step c stats) (write k c log) order.1
      (omega (arith, write-size k c log, small))
      (step-Refines k now c stats log order.0 (omega (arith, small)) r)

replay-size :
    (k : ℕ) (calls : List Call) (log : Log) → size (replay k calls log) ≤ size log + length calls
replay-size k [] log = omega arith
replay-size k (c ∷ calls) log =
    omega (arith, replay-size k calls (write k c log), write-size k c log)

Refines-IsAnswer :
    (now : ℕ) (log : Log) (o : Option EndpointCounters)
    → size log < 2 ^ 64
    → Refines now log o
    → IsAnswer now log (map_option (snapshot now) o)
Refines-IsAnswer now log none small r = r.present refl
Refines-IsAnswer now log (some c) small r =
    let t = Tally-sum now log.throttled _ (omega (arith, small)) r.throttled in
    let e = Tally-sum now log.erred _ (omega (arith, small)) r.erred in
    unfold snapshot in
    record {
      throttle_low = t.0;
      throttle_high = t.1;
      error_low = e.0;
      error_high = e.1;
      requests = r.requested;
    }

start-Refines : (k : ℕ) → Refines 0 blank (lookup k [])
start-Refines k =
    unfold lookup in
    record { throttled = Tally-nil 0; erred = Tally-nil 0; requested = refl; present = λ e. refl }

-- The statistics refine a log of all events. After any calls in the order of their times, fewer
-- than 2 ^ 64, with evictions among them, a query at a later time answers for an endpoint only what
-- its log allows: as many requests as there were, and a number of throttles and one of errors that
-- include all those of the last 59 minutes and none older than one hour. An endpoint without an
-- answer has no event.
pub stats-refine :
    (k until : ℕ) (calls : List Call)
    → InOrder 0 calls until
    → length calls < 2 ^ 64
    → IsAnswer until (replay k calls blank) (lookup k (get_all_stats until (run calls [])))
unfolding get_all_stats
stats-refine k until calls order small = rw (lookup-map_values (snapshot until) k (run calls [])) (
    Refines-IsAnswer until (replay k calls blank) (lookup k (run calls []))
      (omega (arith, replay-size k calls blank, small))
      (run-Refines k 0 until calls [] blank order (omega (arith, small)) (start-Refines k)))
