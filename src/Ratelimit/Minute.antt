-- ===== src/Ratelimit/Minute.antt =====
-- What the limiter of src/ratelimit/mod.rs promises about any sixty seconds of a history of calls.
use claude_code_aws_gateway.Prelude.{
  ℕ, ◌+◌, ◌%◌, ◌^◌, ◌≤◌, ◌<◌, ◌≡◌, refl, true, List, [], ◌∷◌, arith, leb, length, retain,
  length-append, length-retain-le, All, Bool-cases, inl, inr,
}
use claude_code_aws_gateway.Ratelimit.{
  recent, decide, check, refuse, Verdict, allowed, limited, panicked,
}
use claude_code_aws_gateway.Ratelimit.History.{
  Call, run, grants, InOrder, LimitAt, history-Inv, times, check-verdict,
}

-- If every check of a key asks for at most `limit` requests a minute, then at any time the requests
-- of that key that were granted in the last sixty seconds are at most `limit`, whatever the other
-- keys and the cleanups did.
pub minute_bounded :
    (k limit until : ℕ) (calls : List Call)
    → limit < 2 ^ 32
    → InOrder 0 calls until
    → All (LimitAt k limit) calls
    → length (retain (recent until) (grants k calls [])) ≤ limit
minute_bounded k limit until calls small order lim =
    let w = (history-Inv k limit until calls small order lim).window in
    rw (w.same until (omega arith))
      (omega (arith, length-retain-le (recent until) (times k (run calls [])), w.bounded))

-- What a call of `check` answers when n requests were granted in the last minute.
pub data Answers (n limit : ℕ) : Verdict → Type 0 where
  grants_one :
      {remaining : ℕ} → n < limit → remaining + n + 1 ≡ limit → Answers n limit (allowed remaining)
  refuses :
      {seconds : ℕ}
      → limit ≤ n
      → 0 < n
      → 1 ≤ seconds
      → seconds ≤ 61
      → Answers n limit (limited seconds)
  panics : n ≡ 0 → limit ≡ 0 → Answers n limit panicked

refuse-Answers :
    (now limit : ℕ) (kept : List ℕ)
    → All (λ t. recent now t ≡ true) kept
    → limit ≤ length kept
    → Answers (length kept) limit (refuse now kept)
refuse-Answers now limit [] a h = panics refl (omega arith)
refuse-Answers now limit (oldest ∷ kept) a h = refuses h (omega arith) (ground arith) (ground arith)

recent-retain : (now : ℕ) (ts : List ℕ) → All (λ t. recent now t ≡ true) (retain (recent now) ts)
recent-retain now [] = tt
recent-retain now (t ∷ ts) = elim (Bool-cases (recent now t)) [
  | inl e ↦ rw e (e, recent-retain now ts)
  | inr e ↦ rw e (recent-retain now ts)
]

decide-Answers :
    (now limit : ℕ) (kept : List ℕ)
    → length kept < 2 ^ 32
    → limit < 2 ^ 32
    → All (λ t. recent now t ≡ true) kept
    → Answers (length kept) limit (decide now limit kept).1
unfolding decide
decide-Answers now limit kept small small' a =
    elim (Bool-cases (leb limit (length kept % 2 ^ 32))) [
      | inl full ↦ rw full (refuse-Answers now limit kept a (ground arith))
      | inr room ↦
          rw room (grants_one (ground arith) (ground (arith, length-append kept (now ∷ []))))
    ]

-- After any history in time order, a check grants the request exactly if fewer than the limit were
-- granted in the last sixty seconds, and says how many remain; at the limit it asks to retry in 1 to
-- 61 seconds. At a limit of 0 with nothing granted in the last minute it panics.
pub check-Answers :
    (k bound limit until : ℕ) (calls : List Call)
    → bound < 2 ^ 32
    → limit < 2 ^ 32
    → InOrder 0 calls until
    → All (LimitAt k bound) calls
    → Answers
        (length (retain (recent until) (grants k calls [])))
        limit
        (check until k limit (run calls [])).1
check-Answers k bound limit until calls small small' order lim =
    let w = (history-Inv k bound until calls small order lim).window in
    rw (w.same until (omega arith), check-verdict until k limit (run calls []))
      (decide-Answers until limit _
        (omega (arith, length-retain-le (recent until) (times k (run calls [])), w.bounded)) small'
        (recent-retain until (times k (run calls []))))
