-- ===== src/Ratelimit/Window.antt =====
-- The timestamps of one window of src/ratelimit/mod.rs.
use mathlib.Core.List.{append-nil}
use claude_code_aws_gateway.Prelude.{
  ℕ, ◌-◌, ◌%◌, ◌^◌, ◌≤◌, ◌<◌, ◌≡◌, refl, sym, ap, ◌∙◌, ◌⊎◌, Bool, true, false, List, [], ◌∷◌, ◌++◌,
  some, arith, ltb, length, retain, retain-append, length-append, length-retain-le, last, All,
  All-retain, All-snoc, All-map, last-holds, Bool-cases, inl, inr, if◌then◌else◌,
}
use claude_code_aws_gateway.Ratelimit.{recent, stale, decide, refuse, Verdict, allowed}

-- In the order in which they were pushed.
abbrev pub Ascends : List ℕ → Type 0
Ascends [] = Unit {0}
Ascends (t ∷ ts) = All (λ u. t ≤ u) ts × Ascends ts

pub retain-Ascends : (p : ℕ → Bool) (ts : List ℕ) → Ascends ts → Ascends (retain p ts)
retain-Ascends p [] a = tt
retain-Ascends p (t ∷ ts) a = elim (Bool-cases (p t)) [
  | inl e ↦ rw e (All-retain _ p ts a.0, retain-Ascends p ts a.1)
  | inr e ↦ rw e (retain-Ascends p ts a.1)
]

pub snoc-Ascends : (t : ℕ) (ts : List ℕ) → Ascends ts → All (λ u. u ≤ t) ts → Ascends (ts ++ t ∷ [])
snoc-Ascends t [] a h = (tt, tt)
snoc-Ascends t (u ∷ ts) a h = (All-snoc _ t ts a.0 h.0, snoc-Ascends t ts a.1 h.1)

-- Whatever is recent later is recent now.
pub retain_later :
    (now later : ℕ) (ts : List ℕ)
    → now ≤ later
    → retain (recent later) (retain (recent now) ts) ≡ retain (recent later) ts
retain_later now later [] h = refl
retain_later now later (t ∷ ts) h = ground (arith, retain_later now later ts h)

-- If the last timestamp is old, all are.
pub retain-stale :
    (now l : ℕ) (ts : List ℕ)
    → Ascends ts
    → last ts ≡ some l
    → ltb (now - l) stale ≡ false
    → retain (recent now) ts ≡ []
retain-stale now l [] a e h = refl
retain-stale now l (t ∷ []) a e h = ground arith
retain-stale now l (t ∷ u ∷ ts) a e h =
    ground (arith, retain-stale now l (u ∷ ts) a.1 e h, last-holds (λ u. t ≤ u) (u ∷ ts) l a.0 e)

abbrev pub is_allowed : Verdict → Bool
is_allowed (allowed _) = true
is_allowed _ = false

refuse-is_allowed : (now : ℕ) (kept : List ℕ) → is_allowed (refuse now kept) ≡ false
refuse-is_allowed now [] = refl
refuse-is_allowed now (t ∷ ts) = refl

-- What one decision does to the window: it keeps the timestamps, or adds the present one if fewer
-- than the limit are left.
decide-cases :
    (now limit_rpm : ℕ) (kept : List ℕ)
    → ((limit_rpm ≤ length kept % 2 ^ 32)
        × ((decide now limit_rpm kept).0 ≡ kept)
        × (is_allowed (decide now limit_rpm kept).1 ≡ false))
      ⊎ ((length kept % 2 ^ 32 < limit_rpm)
          × ((decide now limit_rpm kept).0 ≡ kept ++ now ∷ [])
          × (is_allowed (decide now limit_rpm kept).1 ≡ true))
unfolding decide
decide-cases now limit_rpm kept = ground (arith, refuse-is_allowed now kept)

-- What holds at time `now` of the timestamps ts of a key, where g are all the grants so far and the
-- key's limit is at most `limit`.
pub record WindowInv (limit now : ℕ) (ts g : List ℕ) : Type 0 where
  pub ascends : Ascends ts
  pub past : All (λ t. t ≤ now) ts
  pub bounded : length ts ≤ limit
  pub same : (later : ℕ) → now ≤ later → retain (recent later) g ≡ retain (recent later) ts

module _ (limit now : ℕ) (ts g : List ℕ) (v : WindowInv limit now ts g) where
  pub WindowInv-later : (later : ℕ) → now ≤ later → WindowInv limit later ts g
  WindowInv-later later h = record {
    ascends = v.ascends;
    past = All-map (λ t. t ≤ now) _ ts (λ t p. omega arith) v.past;
    bounded = v.bounded;
    same = λ t k. v.same t (omega arith);
  }

  pub WindowInv-retain : WindowInv limit now (retain (recent now) ts) g
  WindowInv-retain = record {
    ascends = retain-Ascends (recent now) ts v.ascends;
    past = All-retain _ (recent now) ts v.past;
    bounded = omega (arith, length-retain-le (recent now) ts, v.bounded);
    same = λ t k. v.same t k ∙ sym (retain_later now t ts k);
  }

  pub WindowInv-drop : retain (recent now) ts ≡ [] → WindowInv limit now [] g
  WindowInv-drop e = record {
    ascends = tt;
    past = tt;
    bounded = omega arith;
    same = λ t k. v.same t k ∙ sym (retain_later now t ts k) ∙ ap (retain (recent t)) e;
  }

  WindowInv-push : length ts < limit → WindowInv limit now (ts ++ now ∷ []) (g ++ now ∷ [])
  WindowInv-push h = record {
    ascends = snoc-Ascends now ts v.ascends v.past;
    past = All-snoc _ now ts v.past (omega arith);
    bounded = omega (arith, length-append ts (now ∷ []));
    same = λ t k.
        rw (
          retain-append (recent t) g (now ∷ []),
          retain-append (recent t) ts (now ∷ []),
          v.same t k,
        );
  }

-- The grant that a decision adds.
abbrev pub grant_if : Bool → ℕ → List ℕ
grant_if b now = if b then now ∷ [] else []

pub WindowInv-decide :
    (limit l now : ℕ) (kept g : List ℕ)
    → limit < 2 ^ 32
    → l ≤ limit
    → WindowInv limit now kept g
    → WindowInv limit now
        (decide now l kept).0
        (g ++ grant_if (is_allowed (decide now l kept).1) now)
WindowInv-decide limit l now kept g small h v = elim (decide-cases now l kept) [
  | inl (full, e, n) ↦ rw (e, n, append-nil g) v
  | inr (room, e, n) ↦ rw (e, n) (WindowInv-push limit now kept g v (omega (arith, v.bounded)))
]
