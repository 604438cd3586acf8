-- ===== src/Budget/Severity.antt =====
-- `most_restrictive` of src/budget/mod.rs joins two decisions by severity.
use claude_code_aws_gateway.Prelude.{◌≡◌, ◌⊎◌, refl, arith, max}
use claude_code_aws_gateway.Budget.{BudgetDecision, allow, severity, most_restrictive}

unit_left : (a : BudgetDecision) → most_restrictive allow a ≡ a
unfolding most_restrictive
unit_left allow = refl
unit_left _ = refl

unit_right : (a : BudgetDecision) → most_restrictive a allow ≡ a
unfolding most_restrictive
unit_right allow = refl
unit_right _ = refl

-- Joining two decisions gives one of them, at the larger severity; the operation is associative,
-- keeps the first decision on a tie, and has `allow` as its unit on both sides.
pub most_restrictive_join :
    (a b c : BudgetDecision)
    → ((most_restrictive a b ≡ a) ⊎ (most_restrictive a b ≡ b))
      × (severity (most_restrictive a b) ≡ max (severity a) (severity b))
      × (most_restrictive (most_restrictive a b) c ≡ most_restrictive a (most_restrictive b c))
      × (severity a ≡ severity b → most_restrictive a b ≡ a)
      × (most_restrictive allow a ≡ a)
      × (most_restrictive a allow ≡ a)
unfolding most_restrictive
most_restrictive_join a b c =
    (ground arith, ground arith, ground arith, λ e. ground arith, unit_left a, unit_right a)
