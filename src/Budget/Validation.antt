-- ===== src/Budget/Validation.antt =====
-- What `validate_policy` of src/budget/mod.rs accepts.
use claude_code_aws_gateway.Prelude.{
  ℕ, ◌+◌, ◌≤◌, ◌<◌, ◌≡◌, ◌≢◌, ◌↔◌, refl, Bool, true, false, ◌&&◌, List, [], ◌∷◌, none, arith,
  length, Bool-cases, inl, inr,
}
use claude_code_aws_gateway.Budget.{
  shape, block, PolicyRule, validate_policy, check_rules, is_block, is_shape, is_none, ok,
}

-- The rules from here on, after a rule at `prev` percent.
abbrev pub Continues : ℕ → List PolicyRule → Type 0
Continues prev [] = Unit {0}
Continues prev (r ∷ rules) =
    (0 < r.at_percent)
    × (prev ≤ r.at_percent)
    × (r.action ≡ shape → r.shaped_rpm ≢ none)
    × (r.action ≡ block → rules ≡ [])
    × Continues r.at_percent rules

pub record IsValidPolicy (rules : List PolicyRule) : Type 0 where
  pub has_rule : rules ≢ []
  pub short : length rules ≤ 5
  pub continues : Continues 0 rules

after_block : (i p : ℕ) (rules : List PolicyRule) → check_rules i p true rules ≡ ok → rules ≡ []
unfolding check_rules
after_block i p [] h = refl
after_block i p (r ∷ rules) h = ground arith

-- A rule that passes the tests of the loop, and what the loop does next.
passed :
    (i p : ℕ) (r : PolicyRule) (rules : List PolicyRule)
    → check_rules i p false (r ∷ rules) ≡ ok
    → (0 < r.at_percent)
      × (p ≤ r.at_percent)
      × (is_shape r.action && is_none r.shaped_rpm ≡ false)
      × (check_rules (i + 1) r.at_percent (is_block r.action) rules ≡ ok)
unfolding check_rules
passed i p r rules h = ground arith

Continues-end : (p : ℕ) (rules : List PolicyRule) → rules ≡ [] → Continues p rules
Continues-end p [] e = tt
Continues-end p (r ∷ rules) e = absurd (ground arith)

check_rules-Continues :
    (i p : ℕ) (rules : List PolicyRule) → check_rules i p false rules ≡ ok → Continues p rules
check_rules-Continues i p [] h = tt
check_rules-Continues i p (r ∷ rules) h =
    let (pos, asc, rpm, rest) = passed i p r rules h in
    (
      pos,
      asc,
      λ e n. ground arith,
      λ e. after_block (i + 1) r.at_percent rules (ground arith),
      elim (Bool-cases (is_block r.action)) [
        | inl b ↦
            Continues-end r.at_percent rules (after_block (i + 1) r.at_percent rules (rw b at rest))
        | inr b ↦ check_rules-Continues (i + 1) r.at_percent rules (rw b at rest)
      ],
    )

shape_has_rpm :
    (r : PolicyRule)
    → (r.action ≡ shape → r.shaped_rpm ≢ none)
    → is_shape r.action && is_none r.shaped_rpm ≡ false
shape_has_rpm r h = elim (Bool-cases (is_shape r.action && is_none r.shaped_rpm)) [
  | inl b ↦ absurd (h (ground arith) (ground arith))
  | inr b ↦ b
]

block_ends :
    (i p : ℕ) (b : Bool) (rules : List PolicyRule)
    → b ≡ true
    → rules ≡ []
    → check_rules i p b rules ≡ ok
unfolding check_rules
block_ends i p b [] e n = refl
block_ends i p b (r ∷ rules) e n = absurd (ground arith)

Continues-check_rules :
    (i p : ℕ) (rules : List PolicyRule) → Continues p rules → check_rules i p false rules ≡ ok
unfolding check_rules
Continues-check_rules i p [] c = refl
Continues-check_rules i p (r ∷ rules) (pos, asc, rpm, ends, rest) =
    elim (Bool-cases (is_block r.action)) [
      | inl b ↦ ground (
        arith,
        shape_has_rpm r rpm,
        block_ends (i + 1) r.at_percent (is_block r.action) rules b (ends (ground arith)),
      )
      | inr b ↦
          ground (arith, shape_has_rpm r rpm, Continues-check_rules (i + 1) r.at_percent rules rest)
    ]

validate-IsValidPolicy :
    (rules : List PolicyRule) → validate_policy rules ≡ ok → IsValidPolicy rules
unfolding validate_policy
validate-IsValidPolicy [] h = absurd (ground arith)
validate-IsValidPolicy (r ∷ rules) h = record {
  has_rule = λ e. ground arith;
  short = ground arith;
  continues = check_rules-Continues 0 0 (r ∷ rules) (ground arith);
}

IsValidPolicy-validate :
    (rules : List PolicyRule) → IsValidPolicy rules → validate_policy rules ≡ ok
unfolding validate_policy
IsValidPolicy-validate [] v = absurd (v.has_rule refl)
IsValidPolicy-validate (r ∷ rules) v =
    ground (arith, Continues-check_rules 0 0 (r ∷ rules) v.continues, v.short)

-- `validate_policy` accepts a policy exactly when it has one to five rules, every threshold is
-- positive and at least the one before it, every shape rule has an rpm, and a block rule is last.
pub validate_policy_iff :
    (rules : List PolicyRule) → (validate_policy rules ≡ ok) ↔ IsValidPolicy rules
validate_policy_iff rules = (validate-IsValidPolicy rules, IsValidPolicy-validate rules)
