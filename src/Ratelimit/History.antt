-- ===== src/Ratelimit/History.antt =====
-- src/ratelimit/mod.rs over a history of calls, and what stays true of each key's window.
use mathlib.Core.List.{append-nil, append_assoc}
use claude_code_aws_gateway.Prelude.{
  ℕ, ◌^◌, ◌≤◌, ◌<◌, ◌≡◌, ◌⊎◌, refl, ap, ◌∙◌, Bool, true, false, ◌&&◌, List, [], ◌∷◌, ◌++◌, Option,
  none, some, arith, retain, last, All, Bool-cases, Option-cases, inl, inr, ◌==◌, nat_eq,
  if◌then◌else◌,
}
use claude_code_aws_gateway.Prelude.Assoc.{
  Unique, Unique-nil, lookup, insert-Unique, retain_values-Unique, lookup-insert,
  lookup-retain_values, filter_option,
}
use claude_code_aws_gateway.Ratelimit.{
  RateLimiter, SlidingWindow, recent, or_new, in_use, decide, check, cleanup,
}
use claude_code_aws_gateway.Ratelimit.Window.{
  Ascends, retain-stale, is_allowed, grant_if, WindowInv, WindowInv-later, WindowInv-retain,
  WindowInv-drop, WindowInv-decide,
}

-- The timestamps that are stored for a key.
abbrev pub timestamps_of : Option SlidingWindow → List ℕ
timestamps_of none = []
timestamps_of (some w) = w.timestamps

pub times : ℕ → RateLimiter → List ℕ
times k windows = timestamps_of (lookup k windows)

or_new-timestamps :
    (limit : ℕ) (o : Option SlidingWindow) → (or_new limit o).timestamps ≡ timestamps_of o
or_new-timestamps limit none = refl
or_new-timestamps limit (some w) = refl

timestamps_of-if :
    (b : Bool) (x : SlidingWindow) (o : Option SlidingWindow)
    → timestamps_of (if b then some x else o) ≡ (if b then x.timestamps else timestamps_of o)
timestamps_of-if true x o = refl
timestamps_of-if false x o = refl

times-check :
    (k j now limit : ℕ) (windows : RateLimiter)
    → times k (check now j limit windows).0 ≡ (
        if j == k
        then (decide now limit (retain (recent now) (times j windows))).0
        else times k windows)
unfolding times check
times-check k j now limit windows =
    rw (← or_new-timestamps limit (lookup j windows))
      (ap timestamps_of (lookup-insert j k _ windows) ∙ timestamps_of-if (j == k) _ _)

last-none : (ts : List ℕ) → last ts ≡ none → ts ≡ []
last-none [] e = refl
last-none (t ∷ []) e = absurd (ground arith)
last-none (t ∷ u ∷ ts) e = let none_left = last-none (u ∷ ts) e in absurd (ground arith)

-- A window that `cleanup` drops holds nothing recent.
unused :
    (now : ℕ) (w : SlidingWindow)
    → Ascends w.timestamps
    → in_use now w ≡ false
    → retain (recent now) w.timestamps ≡ []
unused now w a h = elim (Option-cases (last w.timestamps)) [
  | inl e ↦ rw (last-none w.timestamps e)
  | inr (l, e) ↦ retain-stale now l w.timestamps a e (ground arith)
]

kept_or_stale :
    (now : ℕ) (o : Option SlidingWindow)
    → Ascends (timestamps_of o)
    → (timestamps_of (filter_option (in_use now) o) ≡ timestamps_of o)
      ⊎ ((timestamps_of (filter_option (in_use now) o) ≡ [])
          × (retain (recent now) (timestamps_of o) ≡ []))
kept_or_stale now none a = inl refl
kept_or_stale now (some w) a = elim (Bool-cases (in_use now w)) [
  | inl e ↦ inl (rw e)
  | inr e ↦ inr (rw e, unused now w a e)
]

times-cleanup :
    (k now : ℕ) (windows : RateLimiter)
    → Unique windows
    → Ascends (times k windows)
    → (times k (cleanup now windows) ≡ times k windows)
      ⊎ ((times k (cleanup now windows) ≡ []) × (retain (recent now) (times k windows) ≡ []))
unfolding times cleanup
times-cleanup k now windows u a =
    rw (lookup-retain_values (in_use now) k windows u) (kept_or_stale now (lookup k windows) a)

-- A call of the limiter, with the time at which it is made.
pub data Call : Type 0 where
  checks : ℕ → ℕ → ℕ → Call
  cleans : ℕ → Call

abbrev pub time : Call → ℕ
time (checks now _ _) = now
time (cleans now) = now

unfoldable pub step : Call → RateLimiter → RateLimiter
step (checks now key_id limit_rpm) windows = (check now key_id limit_rpm windows).0
step (cleans now) windows = cleanup now windows

unfoldable pub run : List Call → RateLimiter → RateLimiter
unfolding step
run [] windows = windows
run (c ∷ calls) windows = run calls (step c windows)

-- The times at which a call granted a request of key k.
abbrev pub granted_by : ℕ → Call → RateLimiter → List ℕ
granted_by k (checks now key_id limit_rpm) windows =
    grant_if (key_id == k && is_allowed (check now key_id limit_rpm windows).1) now
granted_by k (cleans now) windows = []

unfoldable pub grants : ℕ → List Call → RateLimiter → List ℕ
unfolding step
grants k [] windows = []
grants k (c ∷ calls) windows = granted_by k c windows ++ grants k calls (step c windows)

-- The calls are made in this order, from time `from` to time `until`.
abbrev pub InOrder : ℕ → List Call → ℕ → Type 0
InOrder from [] until = from ≤ until
InOrder from (c ∷ calls) until = (from ≤ time c) × InOrder (time c) calls until

-- The limits with which key k is checked are at most `limit`.
abbrev pub LimitAt : ℕ → ℕ → Call → Type 0
LimitAt k limit (checks now key_id limit_rpm) = key_id ≡ k → limit_rpm ≤ limit
LimitAt k limit (cleans now) = Unit

pub record Inv (k limit now : ℕ) (windows : RateLimiter) (g : List ℕ) : Type 0 where
  pub unique : Unique windows
  pub window : WindowInv limit now (times k windows) g

check-Unique :
    (now j l : ℕ) (windows : RateLimiter) → Unique windows → Unique (check now j l windows).0
unfolding check
check-Unique now j l windows u = insert-Unique j _ windows u

pub check-verdict :
    (now j l : ℕ) (windows : RateLimiter)
    → (check now j l windows).1 ≡ (decide now l (retain (recent now) (times j windows))).1
unfolding check times
check-verdict now j l windows = rw (or_new-timestamps l (lookup j windows))

cleanup-Unique : (now : ℕ) (windows : RateLimiter) → Unique windows → Unique (cleanup now windows)
unfolding cleanup
cleanup-Unique now windows u = retain_values-Unique (in_use now) windows u

step-Inv :
    (k limit now : ℕ) (c : Call) (windows : RateLimiter) (g : List ℕ)
    → limit < 2 ^ 32
    → now ≤ time c
    → LimitAt k limit c
    → Inv k limit now windows g
    → Inv k limit (time c) (step c windows) (g ++ granted_by k c windows)
unfolding step
step-Inv k limit now (checks at j l) windows g small h lim v = record {
  unique = check-Unique at j l windows v.unique;
  window = elim (Bool-cases (j == k)) [
    | inl e ↦
        let same_key : j ≡ k = ground arith in
        rw (times-check k j at l windows, e, check-verdict at j l windows, same_key)
          (WindowInv-decide limit l at _ g small (lim same_key)
            (WindowInv-retain limit at _ g (WindowInv-later limit now _ g v.window at h)))
    | inr e ↦
        rw (times-check k j at l windows, e, append-nil g)
          (WindowInv-later limit now _ g v.window at h)
  ];
}
step-Inv k limit now (cleans at) windows g small h lim v = record {
  unique = cleanup-Unique at windows v.unique;
  window =
      let w = WindowInv-later limit now _ g v.window at h in
      rw (append-nil g) (elim (times-cleanup k at windows v.unique w.ascends) [
        | inl e ↦ rw e w
        | inr (e, r) ↦ rw e (WindowInv-drop limit at _ g w r)
      ]);
}

run-Inv :
    (k limit now until : ℕ) (calls : List Call) (windows : RateLimiter) (g : List ℕ)
    → limit < 2 ^ 32
    → InOrder now calls until
    → All (LimitAt k limit) calls
    → Inv k limit now windows g
    → Inv k limit until (run calls windows) (g ++ grants k calls windows)
unfolding run grants
run-Inv k limit now until [] windows g small order lim v = record {
  unique = v.unique;
  window = rw (append-nil g) (WindowInv-later limit now _ g v.window until order);
}
run-Inv k limit now until (c ∷ calls) windows g small order lim v =
    rw (← append_assoc g (granted_by k c windows) (grants k calls (step c windows))) (
      run-Inv k limit (time c) until calls (step c windows) (g ++ granted_by k c windows) small
        order.1 lim.1 (step-Inv k limit now c windows g small order.0 lim.0 v))

start-Inv : (k limit : ℕ) → Inv k limit 0 [] []
unfolding times
start-Inv k limit = record {
  unique = Unique-nil ℕ SlidingWindow;
  window =
      unfold lookup in
      record { ascends = tt; past = tt; bounded = omega arith; same = λ t h. refl };
}

-- A history of an empty limiter.
pub history-Inv :
    (k limit until : ℕ) (calls : List Call)
    → limit < 2 ^ 32
    → InOrder 0 calls until
    → All (LimitAt k limit) calls
    → Inv k limit until (run calls []) (grants k calls [])
history-Inv k limit until calls small order lim =
    run-Inv k limit 0 until calls [] [] small order lim (start-Inv k limit)
