-- ===== src/Ratelimit/Tests.antt =====
-- The limiter of src/ratelimit/mod.rs on concrete histories.
use claude_code_aws_gateway.Prelude.{
  ℕ, ◌*◌, ◌≤◌, ◌≡◌, refl, List, [], ◌∷◌, arith, length, retain, All, nat_eq,
}
use claude_code_aws_gateway.Prelude.Assoc.{lookup, insert, retain_values}
use claude_code_aws_gateway.Ratelimit.{recent, check, cleanup, nanos_per_sec, limited, panicked}
use claude_code_aws_gateway.Ratelimit.History.{Call, checks, cleans, run, grants, LimitAt}
use claude_code_aws_gateway.Ratelimit.Minute.{Answers, minute_bounded, check-Answers}

abbrev second : ℕ → ℕ
second n = n * nanos_per_sec

-- Two grants of key 7 at a limit of 2, a refusal, another key, and a cleanup.
abbrev busy : List Call
busy =
    checks (second 1) 7 2
    ∷ checks (second 2) 7 2
    ∷ checks (second 3) 7 2
    ∷ checks (second 3) 8 9
    ∷ cleans (second 200)
    ∷ checks (second 201) 7 2
    ∷ []

busy_limits : All (LimitAt 7 2) busy
busy_limits = omega arith

grants-busy : grants 7 busy [] ≡ second 1 ∷ second 2 ∷ second 201 ∷ []
unfolding grants check lookup insert cleanup retain_values
grants-busy = refl

refused_third :
    (check (second 3) 7 2 (run (checks (second 1) 7 2 ∷ checks (second 2) 7 2 ∷ []) [])).1
    ≡ limited 59
unfolding run check lookup insert
refused_third = refl

zero_limit : (check (second 1) 7 0 []).1 ≡ panicked
unfolding check lookup
zero_limit = refl

minute_bounded_example : length (retain (recent (second 201)) (grants 7 busy [])) ≤ 2
minute_bounded_example =
    minute_bounded 7 2 (second 201) busy (omega arith) (omega arith) busy_limits

check-Answers_example :
    Answers
      (length (retain (recent (second 201)) (grants 7 busy [])))
      2
      (check (second 201) 7 2 (run busy [])).1
check-Answers_example =
    check-Answers 7 2 2 (second 201) busy (omega arith) (omega arith) (omega arith) busy_limits
