-- ===== src/Endpoint/Stats/Buckets.antt =====
-- The buckets of src/endpoint/stats.rs against the times that they were told.
use claude_code_aws_gateway.Prelude.{
  ℕ, ◌+◌, ◌-◌, ◌*◌, ◌^◌, ◌≤◌, ◌<◌, ◌≡◌, refl, List, [], ◌∷◌, arith, leb, retain, length, All,
  All-map, All-retain, if◌then◌else◌,
}
use claude_code_aws_gateway.Endpoint.Stats.{Buckets, record_in, is_retained, sum_u64}

-- Without the bound of 64 bits.
abbrev total : Buckets → ℕ
total [] = 0
total (b ∷ buckets) = b.1 + total buckets

-- How many of the times lie at most a number of nanoseconds before `now`.
abbrev pub within : ℕ → ℕ → List ℕ → ℕ
within span now [] = 0
within span now (t ∷ log) = (if leb (now - t) span then 1 else 0) + within span now log

-- 59 minutes, and one hour less a nanosecond.
abbrev pub surely : ℕ
surely = 3540 * 1_000_000_000

abbrev pub at_most : ℕ
at_most = 3600 * 1_000_000_000 - 1

-- The buckets tell at each later time a number of events that is right up to one minute.
pub record Tally (now : ℕ) (log : List ℕ) (buckets : Buckets) : Type 0 where
  pub past : All (λ (b : ℕ × ℕ). b.0 ≤ now) buckets
  pub bounded : total buckets ≤ length log
  pub low : (at : ℕ) → now ≤ at → within surely at log ≤ total (retain (is_retained at) buckets)
  pub high : (at : ℕ) → now ≤ at → total (retain (is_retained at) buckets) ≤ within at_most at log

pub Tally-nil : (now : ℕ) → Tally now [] []
Tally-nil now = record {
  past = tt;
  bounded = omega arith;
  low = λ at h. omega arith;
  high = λ at h. omega arith;
}

pub Tally-later :
    (now later : ℕ) (log : List ℕ) (bs : Buckets)
    → now ≤ later
    → Tally now log bs
    → Tally later log bs
Tally-later now later log bs h t = record {
  past = All-map _ _ bs (λ b k. omega (arith, h, k)) t.past;
  bounded = t.bounded;
  low = λ at k. t.low at (omega (arith, h, k));
  high = λ at k. t.high at (omega (arith, h, k));
}

total-retain-le : (now : ℕ) (bs : Buckets) → total (retain (is_retained now) bs) ≤ total bs
total-retain-le now [] = omega arith
total-retain-le now (b ∷ bs) = ground (arith, total-retain-le now bs)

-- An eviction loses nothing that a later query counts.
total-retain_twice :
    (now at : ℕ) (bs : Buckets)
    → now ≤ at
    → total (retain (is_retained at) (retain (is_retained now) bs))
      ≡ total (retain (is_retained at) bs)
total-retain_twice now at [] h = refl
total-retain_twice now at (b ∷ bs) h = ground (arith, total-retain_twice now at bs h)

pub Tally-evict :
    (now : ℕ) (log : List ℕ) (bs : Buckets)
    → Tally now log bs
    → Tally now log (retain (is_retained now) bs)
Tally-evict now log bs t = record {
  past = All-retain _ (is_retained now) bs t.past;
  bounded = omega (arith, total-retain-le now bs, t.bounded);
  low = λ at h. rw (total-retain_twice now at bs h) (t.low at h);
  high = λ at h. rw (total-retain_twice now at bs h) (t.high at h);
}

total-record_in :
    (now : ℕ) (bs : Buckets) → total bs + 1 < 2 ^ 64 → total (record_in now bs) ≡ total bs + 1
unfolding record_in
total-record_in now [] h = ground arith
total-record_in now (b ∷ []) h = ground arith
total-record_in now (b ∷ c ∷ bs) h = ground (arith, total-record_in now (c ∷ bs))

record_in-past :
    (now : ℕ) (bs : Buckets)
    → All (λ (b : ℕ × ℕ). b.0 ≤ now) bs
    → All (λ (b : ℕ × ℕ). b.0 ≤ now) (record_in now bs)
unfolding record_in
record_in-past now [] a = ground arith
record_in-past now (b ∷ []) a = ground arith
record_in-past now (b ∷ c ∷ bs) a = (a.0, record_in-past now (c ∷ bs) a.1)

-- What a recorded event adds to a later query.
record_in-low :
    (now at : ℕ) (bs : Buckets)
    → now ≤ at
    → total bs + 1 < 2 ^ 64
    → total (retain (is_retained at) bs) + (if leb (at - now) surely then 1 else 0)
      ≤ total (retain (is_retained at) (record_in now bs))
unfolding record_in
record_in-low now at [] h small = ground arith
record_in-low now at (b ∷ []) h small = ground arith
record_in-low now at (b ∷ c ∷ bs) h small = ground (arith, record_in-low now at (c ∷ bs) h)

record_in-high :
    (now at : ℕ) (bs : Buckets)
    → now ≤ at
    → total bs + 1 < 2 ^ 64
    → All (λ (b : ℕ × ℕ). b.0 ≤ now) bs
    → total (retain (is_retained at) (record_in now bs))
      ≤ total (retain (is_retained at) bs) + (if leb (at - now) at_most then 1 else 0)
unfolding record_in
record_in-high now at [] h small a = ground arith
record_in-high now at (b ∷ []) h small a = ground arith
record_in-high now at (b ∷ c ∷ bs) h small a =
    ground (arith, record_in-high now at (c ∷ bs) h (omega arith) a.1)

pub Tally-record :
    (now : ℕ) (log : List ℕ) (bs : Buckets)
    → length log + 1 < 2 ^ 64
    → Tally now log bs
    → Tally now (now ∷ log) (record_in now bs)
Tally-record now log bs small t =
    let fits : total bs + 1 < 2 ^ 64 = omega (arith, t.bounded) in
    record {
      past = record_in-past now bs t.past;
      bounded = omega (arith, total-record_in now bs fits, t.bounded);
      low = λ at h. omega (arith, record_in-low now at bs h fits, t.low at h);
      high = λ at h. omega (arith, record_in-high now at bs h fits t.past, t.high at h);
    }

sum-total : (bs : Buckets) → total bs < 2 ^ 64 → sum_u64 bs ≡ total bs
sum-total [] h = refl
sum-total (b ∷ bs) h = omega (arith, sum-total bs)

-- The sum that a query returns.
pub Tally-sum :
    (now : ℕ) (log : List ℕ) (bs : Buckets)
    → length log < 2 ^ 64
    → Tally now log bs
    → (within surely now log ≤ sum_u64 (retain (is_retained now) bs))
      × (sum_u64 (retain (is_retained now) bs) ≤ within at_most now log)
Tally-sum now log bs small t =
    let fits : total (retain (is_retained now) bs) < 2 ^ 64 =
      omega (arith, total-retain-le now bs, t.bounded) in
    rw (sum-total (retain (is_retained now) bs) fits)
      (t.low now (omega arith), t.high now (omega arith))
