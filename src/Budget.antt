-- ===== src/Budget.antt =====
-- src/budget/mod.rs: budget policies, their validation and evaluation, and the severity order on
-- decisions. Error texts are constructors that carry what the text shows.
pub mod Validation
pub mod Evaluation
pub mod Severity
pub mod Cache
pub mod Enforcement
mod Tests
use claude_code_aws_gateway.Prelude.{
  ℕ, zero, ◌+◌, Bool, true, false, ◌&&◌, ◌||◌, List, [], ◌∷◌, Option, none, some, ltb, eqb, length,
  if◌then◌else◌, String, ◌==◌, string_eq,
}
use claude_code_aws_gateway.Prelude.Float.{Float}

pub data PolicyAction : Type 0 where
  notify shape block : PolicyAction

pub record PolicyRule : Type 0 where
  pub at_percent : ℕ
  pub action : PolicyAction
  pub shaped_rpm : Option ℕ

pub data BudgetDecision : Type 0 where
  allow : BudgetDecision
  notified : ℕ → BudgetDecision
  shaped : ℕ → ℕ → BudgetDecision
  blocked : ℕ → BudgetDecision

pub data BudgetPeriod : Type 0 where
  daily weekly monthly : BudgetPeriod

unfoldable pub parse : String → BudgetPeriod
parse s = if s == "daily" then daily else if s == "weekly" then weekly else monthly

unfoldable pub as_str : BudgetPeriod → String
as_str daily = "daily"
as_str weekly = "weekly"
as_str monthly = "monthly"

unfoldable pub trunc_arg : BudgetPeriod → String
trunc_arg daily = "day"
trunc_arg weekly = "week"
trunc_arg monthly = "month"

abbrev pub rule : ℕ → PolicyAction → Option ℕ → PolicyRule
rule p a r = record { at_percent = p; action = a; shaped_rpm = r }

abbrev pub preset_standard : List PolicyRule
preset_standard = rule 80 notify none ∷ rule 100 block none ∷ []

abbrev pub preset_soft : List PolicyRule
preset_soft = rule 80 notify none ∷ rule 100 notify none ∷ rule 150 block none ∷ []

abbrev pub preset_shaped : List PolicyRule
preset_shaped = rule 80 notify none ∷ rule 100 shape (some 5) ∷ rule 150 block none ∷ []

pub data PolicyError : Type 0 where
  no_rules too_many_rules zero_percent not_ascending block_not_last : PolicyError
  shape_without_rpm : ℕ → ℕ → PolicyError

pub data Validated : Type 0 where
  ok : Validated
  err : PolicyError → Validated

abbrev pub is_block : PolicyAction → Bool
is_block block = true
is_block _ = false

abbrev pub is_shape : PolicyAction → Bool
is_shape shape = true
is_shape _ = false

abbrev pub is_none : Option ℕ → Bool
is_none none = true
is_none (some _) = false

-- The loop of `validate_policy` at rule number i.
check_rules : ℕ → ℕ → Bool → List PolicyRule → Validated
check_rules i prev_pct has_block [] = ok
check_rules i prev_pct has_block (r ∷ rules) =
    let rest = check_rules (i + 1) r.at_percent (has_block || is_block r.action) rules in
    if eqb r.at_percent 0
    then err zero_percent
    else if ltb r.at_percent prev_pct
    then err not_ascending
    else if has_block
    then err block_not_last
    else if is_shape r.action && is_none r.shaped_rpm
    then err (shape_without_rpm i r.at_percent)
    else rest

abbrev is_empty : List PolicyRule → Bool
is_empty [] = true
is_empty (_ ∷ _) = false

unfoldable pub validate_policy : List PolicyRule → Validated
unfolding check_rules
validate_policy rules =
    if is_empty rules
    then err no_rules
    else if ltb 5 (length rules)
    then err too_many_rules
    else check_rules 0 0 false rules

-- The `match` on a triggered rule's action.
abbrev pub decision_of : PolicyRule → BudgetDecision
decision_of r = elim r.action [
  | notify ↦ notified r.at_percent
  | shape ↦ shaped r.at_percent (elim r.shaped_rpm [ none ↦ 5 | some rpm ↦ rpm ])
  | block ↦ blocked r.at_percent
]

module _ (f : Float) where
  open f use {F64, of_nat, div, mul, ge}

  abbrev pub triggered : F64 → PolicyRule → Bool
  triggered percent r = ge percent (of_nat r.at_percent)

  -- The loop of `evaluate`: a later triggered rule replaces the decision.
  pub decide : F64 → BudgetDecision → List PolicyRule → BudgetDecision
  decide percent decision [] = decision
  decide percent decision (r ∷ rules) =
      decide percent (if triggered percent r then decision_of r else decision) rules

  abbrev pub percent_of : F64 → F64 → F64
  percent_of spend limit = mul (div spend limit) (of_nat 100)

  unfoldable pub evaluate : List PolicyRule → F64 → F64 → BudgetDecision
  unfolding decide
  evaluate rules spend limit =
      if ge (of_nat 0) limit || is_empty rules
      then allow
      else decide (percent_of spend limit) allow rules

unfoldable pub severity : BudgetDecision → ℕ
severity allow = 0
severity (notified _) = 1
severity (shaped _ _) = 2
severity (blocked _) = 3

unfoldable pub most_restrictive : BudgetDecision → BudgetDecision → BudgetDecision
unfolding severity
most_restrictive a b = if ltb (severity a) (severity b) then b else a
