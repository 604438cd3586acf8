-- ===== src/Budget/Evaluation.antt =====
-- What `evaluate` of src/budget/mod.rs decides.
use claude_code_aws_gateway.Prelude.{
  ℕ, ◌≤◌, ◌<◌, ◌≡◌, ◌↔◌, refl, sym, subst, ◌∙◌, Bool, true, false, ◌&&◌, List, [], ◌∷◌, Option,
  none, some, arith, Bool-cases, inl, inr, if◌then◌else◌, last, retain, any, All,
}
use claude_code_aws_gateway.Prelude.Float.{Float}
use claude_code_aws_gateway.Budget.{
  notify, shape, PolicyRule, BudgetDecision, allow, notified, rule, validate_policy, ok, is_block,
  decision_of, triggered, decide, percent_of, evaluate, severity,
}
use claude_code_aws_gateway.Budget.Validation.{Continues, validate_policy_iff}

-- The decision of a rule, if there is one.
abbrev pub decision_or : BudgetDecision → Option PolicyRule → BudgetDecision
decision_or d none = d
decision_or d (some r) = decision_of r

-- Rules of ascending severity.
abbrev pub Sharpens : ℕ → List PolicyRule → Type 0
Sharpens s [] = Unit {0}
Sharpens s (r ∷ rules) = (s ≤ severity (decision_of r)) × Sharpens (severity (decision_of r)) rules

module _ (f : Float) where
  open f use {F64, of_nat, ge}

  last_cons :
      (d : BudgetDecision) (r : PolicyRule) (rs : List PolicyRule)
      → decision_or d (last (r ∷ rs)) ≡ decision_or (decision_of r) (last rs)
  last_cons d r [] = refl
  last_cons d r (x ∷ []) = refl
  last_cons d r (x ∷ y ∷ rs) = last_cons d y rs ∙ sym (last_cons (decision_of r) y rs)

  decide-last :
      (p : F64) (d : BudgetDecision) (rules : List PolicyRule)
      → decide f p d rules ≡ decision_or d (last (retain (triggered f p) rules))
  unfolding decide
  decide-last p d [] = refl
  decide-last p d (r ∷ rules) = elim (Bool-cases (triggered f p r)) [
    | inl t ↦
        rw (t, if◌then◌else◌)
          (decide-last p (decision_of r) rules ∙ sym (last_cons d r (retain (triggered f p) rules)))
    | inr t ↦ rw (t, if◌then◌else◌) (decide-last p d rules)
  ]

  -- Under a positive limit the decision is that of the last rule whose threshold is reached, and
  -- the request is allowed if there is none.
  pub evaluate-last :
      (rules : List PolicyRule) (spend limit : F64)
      → ge (of_nat 0) limit ≡ false
      → evaluate f rules spend limit
        ≡ decision_or allow (last (retain (triggered f (percent_of f spend limit)) rules))
  unfolding evaluate
  evaluate-last [] spend limit h = ground arith
  evaluate-last (r ∷ rules) spend limit h =
      rw h (decide-last (percent_of f spend limit) allow (r ∷ rules))

  -- A triggered block rule.
  abbrev pub blocks : F64 → PolicyRule → Bool
  blocks p r = is_block r.action && triggered f p r

  decide_end :
      (p : F64) (d : BudgetDecision) (rules : List PolicyRule)
      → rules ≡ []
      → (decide f p d rules ≡ d) × (any (blocks p) rules ≡ false)
  unfolding decide
  decide_end p d [] e = (refl, refl)
  decide_end p d (r ∷ rules) e = absurd (ground arith)

  decide_block :
      (p : F64) (d : BudgetDecision) (q : ℕ) (rules : List PolicyRule)
      → Continues q rules
      → any (blocks p) rules ≡ true
      → severity (decide f p d rules) ≡ 3
  unfolding decide severity
  decide_block p d q [] c h = ground arith
  decide_block p d q (r ∷ rules) (pos, asc, rpm, ends, rest) h =
      elim (Bool-cases (is_block r.action)) [
        | inl b ↦ ground (
          arith,
          decide_end p (if triggered f p r then decision_of r else d) rules (ends (ground arith)),
        )
        | inr b ↦
            decide_block p (if triggered f p r then decision_of r else d) r.at_percent rules rest
              (ground arith)
      ]

  decide_unblocked :
      (p : F64) (d : BudgetDecision) (rules : List PolicyRule)
      → severity d < 3
      → any (blocks p) rules ≡ false
      → severity (decide f p d rules) < 3
  unfolding decide severity
  decide_unblocked p d [] h n = h
  decide_unblocked p d (r ∷ rules) h n =
      decide_unblocked p (if triggered f p r then decision_of r else d) rules (ground arith)
        (ground arith)

  evaluate_blocks :
      (rules : List PolicyRule) (spend limit : F64)
      → ge (of_nat 0) limit ≡ false
      → validate_policy rules ≡ ok
      → any (blocks (percent_of f spend limit)) rules ≡ true
      → severity (evaluate f rules spend limit) ≡ 3
  unfolding evaluate
  evaluate_blocks [] spend limit h v t = ground arith
  evaluate_blocks (r ∷ rules) spend limit h v t = rw h (
      decide_block (percent_of f spend limit) allow 0 (r ∷ rules)
        ((validate_policy_iff (r ∷ rules)).0 v).continues t)

  evaluate_spares :
      (rules : List PolicyRule) (spend limit : F64)
      → ge (of_nat 0) limit ≡ false
      → any (blocks (percent_of f spend limit)) rules ≡ false
      → severity (evaluate f rules spend limit) < 3
  unfolding evaluate severity
  evaluate_spares [] spend limit h t = rw h (omega arith)
  evaluate_spares (r ∷ rules) spend limit h t =
      rw h (decide_unblocked (percent_of f spend limit) allow (r ∷ rules) (omega arith) t)

  -- Under a positive limit and a policy that `validate_policy` accepts, a request is blocked exactly
  -- when the threshold of a block rule is reached.
  pub evaluate_blocks_iff :
      (rules : List PolicyRule) (spend limit : F64)
      → ge (of_nat 0) limit ≡ false
      → validate_policy rules ≡ ok
      → (severity (evaluate f rules spend limit) ≡ 3)
        ↔ (any (blocks (percent_of f spend limit)) rules ≡ true)
  evaluate_blocks_iff rules spend limit h v = (
    λ s. elim (Bool-cases (any (blocks (percent_of f spend limit)) rules)) [
      | inl t ↦ t
      | inr t ↦ absurd (omega (arith, evaluate_spares rules spend limit h t))
    ],
    evaluate_blocks rules spend limit h v,
  )

  -- A policy may shape at a percent and only notify at b percent, with a ≤ b: `validate_policy`
  -- accepts it, and where both thresholds are reached the request is only notified, though the
  -- shape rule is triggered too.
  pub evaluate_relaxes :
      (a b rpm : ℕ) (spend limit : F64)
      → 0 < a
      → a ≤ b
      → ge (of_nat 0) limit ≡ false
      → ge (percent_of f spend limit) (of_nat b) ≡ true
      → let rules = rule a shape (some rpm) ∷ rule b notify none ∷ [] in
        (validate_policy rules ≡ ok)
        × (triggered f (percent_of f spend limit) (rule a shape (some rpm)) ≡ true)
        × (evaluate f rules spend limit ≡ notified b)
  unfolding evaluate
  evaluate_relaxes a b rpm spend limit pos asc h t = (
    (validate_policy_iff _).1 (record {
      has_rule = λ e. ground arith;
      short = omega arith;
      continues = (
        pos,
        omega arith,
        λ e n. ground arith,
        λ e. ground arith,
        (omega arith, asc, λ e. ground arith, λ e. refl, tt),
      );
    }),
    f.ge_mono (percent_of f spend limit) a b asc t,
    rw (h, t) refl,
  )

Sharpens-mono : {s t : ℕ} (rules : List PolicyRule) → s ≤ t → Sharpens t rules → Sharpens s rules
Sharpens-mono [] h k = tt
Sharpens-mono (r ∷ rules) h k = (omega arith, k.1)

module _ (f : Float) where
  open f use {F64, of_nat, ge}

  decide_keeps :
      (p : F64) (d : BudgetDecision) (rules : List PolicyRule)
      → Sharpens (severity d) rules
      → severity d ≤ severity (decide f p d rules)
  unfolding decide
  decide_keeps p d [] h = omega arith
  decide_keeps p d (r ∷ rules) h = elim (Bool-cases (triggered f p r)) [
    | inl t ↦ rw t (omega (arith, decide_keeps p (decision_of r) rules h.1))
    | inr t ↦ rw t (decide_keeps p d rules (Sharpens-mono rules h.0 h.1))
  ]

  -- No triggered rule is more severe than s.
  abbrev pub TopsOut : F64 → ℕ → List PolicyRule → Type 0
  TopsOut p s = All (λ r. triggered f p r ≡ true → severity (decision_of r) ≤ s)

  decide_tops :
      (p : F64) (d : BudgetDecision) (rules : List PolicyRule)
      → Sharpens (severity d) rules
      → TopsOut p (severity (decide f p d rules)) rules
  unfolding decide
  decide_tops p d [] h = tt
  decide_tops p d (r ∷ rules) h = elim (Bool-cases (triggered f p r)) [
    | inl t ↦
        subst (λ s. TopsOut p s (r ∷ rules)) (sym (hit t))
          (λ _. decide_keeps p (decision_of r) rules h.1, decide_tops p (decision_of r) rules h.1)
    | inr t ↦
        subst (λ s. TopsOut p s (r ∷ rules)) (sym (miss t))
          (λ e. cc, decide_tops p d rules (Sharpens-mono rules h.0 h.1))
  ]
    where
      hit :
          triggered f p r ≡ true
          → severity (decide f p d (r ∷ rules)) ≡ severity (decide f p (decision_of r) rules)
      hit t = rw t

      miss :
          triggered f p r ≡ false
          → severity (decide f p d (r ∷ rules)) ≡ severity (decide f p d rules)
      miss t = rw t

  -- If the severities of a policy ascend, as in the three presets, the decision is at least as
  -- severe as that of every triggered rule: the most restrictive triggered action.
  pub evaluate_tops :
      (rules : List PolicyRule) (spend limit : F64)
      → ge (of_nat 0) limit ≡ false
      → Sharpens 0 rules
      → TopsOut (percent_of f spend limit) (severity (evaluate f rules spend limit)) rules
  unfolding evaluate severity
  evaluate_tops [] spend limit h k = tt
  evaluate_tops (r ∷ rules) spend limit h k =
      subst (λ s. TopsOut (percent_of f spend limit) s (r ∷ rules)) (sym same)
        (decide_tops (percent_of f spend limit) allow (r ∷ rules) k)
    where
      same :
          severity (evaluate f (r ∷ rules) spend limit)
          ≡ severity (decide f (percent_of f spend limit) allow (r ∷ rules))
      same = rw h

  decide_mono :
      (p q : F64) (d e : BudgetDecision) (rules : List PolicyRule)
      → All (λ r. triggered f p r ≡ true → triggered f q r ≡ true) rules
      → severity d ≤ severity e
      → Sharpens (severity e) rules
      → severity (decide f p d rules) ≤ severity (decide f q e rules)
  unfolding decide
  decide_mono p q d e [] m h k = h
  decide_mono p q d e (r ∷ rules) m h k = elim (Bool-cases (triggered f p r)) [
    | inl t ↦ rw (t, m.0 t) (decide_mono p q _ _ rules m.1 (omega arith) k.1)
    | inr t ↦ elim (Bool-cases (triggered f q r)) [
      | inl u ↦ rw (t, u) (decide_mono p q _ _ rules m.1 (omega arith) k.1)
      | inr u ↦ rw (t, u) (decide_mono p q _ _ rules m.1 h (Sharpens-mono rules k.0 k.1))
    ]
  ]

  -- With ascending severities, a spend that reaches every threshold that a smaller one reaches is
  -- never treated more leniently.
  pub evaluate_mono :
      (rules : List PolicyRule) (low high limit : F64)
      → Sharpens 0 rules
      → All
          (λ r.
            triggered f (percent_of f low limit) r ≡ true
            → triggered f (percent_of f high limit) r ≡ true)
          rules
      → severity (evaluate f rules low limit) ≤ severity (evaluate f rules high limit)
  unfolding evaluate severity
  evaluate_mono [] low high limit k m = ground arith
  evaluate_mono (r ∷ rules) low high limit k m = elim (Bool-cases (ge (of_nat 0) limit)) [
    | inl h ↦ rw h (omega arith)
    | inr h ↦ rw h (decide_mono _ _ allow allow (r ∷ rules) m (omega arith) k)
  ]
