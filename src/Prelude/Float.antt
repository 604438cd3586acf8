-- ===== src/Prelude/Float.antt =====
-- The double-precision numbers that the source computes money and percentages with. They are not
-- code of the repository: a component takes the type, its operations and the facts it relies on.
use Prim.Native.Nat.{ℕ, ◌≤◌, ◌*◌, ◌/◌, ◌+◌, ◌-◌}
use mathlib.Core.Path.{◌≡◌}
use mathlib.Core.Bool.{Bool, true}
use native.Mathlib.Omega.{arith}
use claude_code_aws_gateway.Prelude.Tests.{leb, ltb, if◌then◌else◌}

pub record Float : Type 1 where
  pub F64 : Type 0
  -- `n as f64` for an n of 32 bits, which is exact
  pub of_nat : ℕ → F64
  pub div : F64 → F64 → F64
  pub mul : F64 → F64 → F64
  pub add : F64 → F64 → F64
  pub sub : F64 → F64 → F64
  -- `a >= b`
  pub ge : F64 → F64 → Bool
  -- `a > b`, and `a.max(b)`
  pub gt : F64 → F64 → Bool
  pub max : F64 → F64 → F64
  -- what is at least b is at least every smaller number (a NaN is at least nothing)
  pub ge_mono : (x : F64) (a b : ℕ) → a ≤ b → ge x (of_nat b) ≡ true → ge x (of_nat a) ≡ true

pub leb_mono : (x a b : ℕ) → a ≤ b → leb b x ≡ true → leb a x ≡ true
leb_mono x a b h k = ground arith

-- Whole amounts, which satisfy the assumptions: a concrete value for tests.
abbrev pub whole : Float
whole = record {
  F64 = ℕ;
  of_nat = λ n. n;
  div = λ a b. a / b;
  mul = λ a b. a * b;
  add = λ a b. a + b;
  sub = λ a b. a - b;
  ge = λ a b. leb b a;
  gt = λ a b. ltb b a;
  max = λ a b. if leb a b then b else a;
  ge_mono = leb_mono;
}
