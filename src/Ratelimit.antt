-- ===== src/Ratelimit.antt =====
-- src/ratelimit/mod.rs: the sliding-window rate limiter. Instants are counted in nanoseconds, a
-- call takes the time at which it is made, and a key is the number of its uuid. The write lock
-- makes each call one step.
pub mod Window
pub mod History
pub mod Minute
mod Tests
use claude_code_aws_gateway.Prelude.{
  ℕ, ◌+◌, ◌-◌, ◌*◌, ◌/◌, ◌%◌, ◌^◌, Bool, false, List, [], ◌∷◌, ◌++◌, Option, none, some, ltb, leb,
  length, retain, last, nat_eq, if◌then◌else◌,
}
use claude_code_aws_gateway.Prelude.Assoc.{Assoc, lookup, insert, retain_values}

pub record SlidingWindow : Type 0 where
  pub timestamps : List ℕ
  pub limit_rpm : ℕ

-- `RateLimiter`: the windows by key.
abbrev pub RateLimiter : Type 0
RateLimiter = Assoc ℕ SlidingWindow

abbrev pub nanos_per_sec : ℕ
nanos_per_sec = 1_000_000_000

-- 60 seconds, and the 120 seconds after which `cleanup` drops a window.
abbrev pub window_duration : ℕ
window_duration = 60 * nanos_per_sec

abbrev pub stale : ℕ
stale = 120 * nanos_per_sec

-- The result of a call of `check`. Indexing an empty vector is a panic.
pub data Verdict : Type 0 where
  allowed : ℕ → Verdict
  limited : ℕ → Verdict
  panicked : Verdict

abbrev pub recent : ℕ → ℕ → Bool
recent now t = ltb (now - t) window_duration

-- `entry(key_id).or_insert_with`
abbrev pub or_new : ℕ → Option SlidingWindow → SlidingWindow
or_new limit_rpm none = record { timestamps = []; limit_rpm = limit_rpm }
or_new limit_rpm (some w) = w

-- `checked_sub`, rounded down to seconds, plus one.
abbrev pub retry_after : ℕ → ℕ → ℕ
retry_after now oldest =
    if leb (now - oldest) window_duration
    then (window_duration - (now - oldest)) / nanos_per_sec + 1
    else 1

abbrev pub refuse : ℕ → List ℕ → Verdict
refuse now [] = panicked
refuse now (oldest ∷ _) = limited (retry_after now oldest)

-- The part of `check` behind the eviction of old timestamps. The length is cast to 32 bits, and the
-- difference is one of 32 bits.
unfoldable pub decide : ℕ → ℕ → List ℕ → List ℕ × Verdict
decide now limit_rpm kept =
    if leb limit_rpm (length kept % 2 ^ 32) then (kept, refuse now kept) else (
      kept ++ now ∷ [],
      allowed ((limit_rpm + 2 ^ 32 - length (kept ++ now ∷ []) % 2 ^ 32) % 2 ^ 32),
    )

unfoldable pub check : ℕ → ℕ → ℕ → RateLimiter → RateLimiter × Verdict
unfolding decide
check now key_id limit_rpm windows =
    let kept = retain (recent now) (or_new limit_rpm (lookup key_id windows)).timestamps in
    let (timestamps, verdict) = decide now limit_rpm kept in
    (insert key_id (record { timestamps = timestamps; limit_rpm = limit_rpm }) windows, verdict)

abbrev pub in_use : ℕ → SlidingWindow → Bool
in_use now w = elim (last w.timestamps) [ none ↦ false | some t ↦ ltb (now - t) stale ]

unfoldable pub cleanup : ℕ → RateLimiter → RateLimiter
cleanup now = retain_values (in_use now)
