-- ===== src/Endpoint/Stats/Tests.antt =====
-- A history of src/endpoint/stats.rs.
use claude_code_aws_gateway.Prelude.{ℕ, ◌*◌, ◌≡◌, refl, List, [], ◌∷◌, some, arith, nat_eq}
use claude_code_aws_gateway.Prelude.Assoc.{lookup, insert, map_values}
use claude_code_aws_gateway.Endpoint.Stats.{
  record_in, record_throttle, record_error, record_request, snapshot, get_all_stats, evict, cleanup,
}
use claude_code_aws_gateway.Endpoint.Stats.Log.{
  Call, throttles, errs, requests, cleans, run, step, replay, blank, IsAnswer, stats-refine,
}

abbrev sec : ℕ → ℕ
sec n = n * 1_000_000_000

-- The throttle at 30 s stands in the bucket of the one at 10 s, which is too old at 3620 s.
abbrev history : List Call
history =
    throttles (sec 10) 1
    ∷ throttles (sec 30) 1
    ∷ errs (sec 40) 1
    ∷ requests (sec 50) 2
    ∷ requests (sec 60) 1
    ∷ cleans (sec 70)
    ∷ throttles (sec 75) 1
    ∷ []

late :
    lookup 1 (get_all_stats (sec 3620) (run history []))
    ≡ some (record { throttle_count_1h = 1; error_count_1h = 1; request_count = 1 })
unfolding lookup insert map_values record_in record_throttle record_error record_request snapshot
    get_all_stats evict cleanup run step
late = refl

stats-refine_example :
    IsAnswer
      (sec 3620)
      (replay 1 history blank)
      (lookup 1 (get_all_stats (sec 3620) (run history [])))
stats-refine_example = stats-refine 1 (sec 3620) history (ground arith) (omega arith)
