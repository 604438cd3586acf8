-- ===== src/Budget/Enforcement/Tests.antt =====
-- The theorems about the budget checks of src/api/handlers.rs, at one user and one team.
use claude_code_aws_gateway.Prelude.{
  ℕ, ◌≡◌, ◌⊎◌, inr, refl, none, some, [], ◌==◌, string_eq, eqb, if◌then◌else◌,
}
use claude_code_aws_gateway.Prelude.Float.{whole}
use claude_code_aws_gateway.Prelude.Assoc.{lookup}
use claude_code_aws_gateway.Budget.{monthly, parse, evaluate, percent_of}
use claude_code_aws_gateway.Budget.Cache.{new_cache, get_team_spend}
use claude_code_aws_gateway.Budget.Enforcement.{
  User, Team, BudgetDb, BudgetState, refused, check_budget, check_team_budget_only, team_of,
}
use claude_code_aws_gateway.Budget.Enforcement.Weigh.{IsRefused, UserBlocks, TeamBlocks}
use claude_code_aws_gateway.Budget.Enforcement.Blocking.{
  check_budget-refused, check_budget-blocks, check_team-refused_iff,
}

abbrev ann : User whole
ann = record { team_id = some 7; spend_limit_monthly_usd = some 10; budget_period = "daily" }

abbrev team : Team whole
team = record {
  id = 7;
  budget_amount_usd = some 20;
  budget_period = "monthly";
  budget_policy = none;
  default_user_budget_usd = none;
}

abbrev db : BudgetDb whole
db = record {
  user_by_email = λ email. if email == "ann" then some ann else none;
  team_by_id = λ id. if eqb id 7 then some team else none;
  setting = λ _. none;
  user_spend = λ _ _. some 4;
  team_spend = λ _ _. some 21;
  policy_of_value = λ _. none;
  policy_of_text = λ _. none;
  f64_of_text = λ _. none;
}

abbrev fresh : BudgetState whole
fresh = record { cache = new_cache ℕ 30; events = [] }

team_blocks : TeamBlocks whole 5 db 7 team fresh 21 20 monthly
team_blocks = record {
  budget = refl;
  current_period = unfold parse in refl;
  spent = unfold get_team_spend new_cache lookup in refl;
  blocks = unfold evaluate in refl;
}

check_budget-refused_example :
    (percent_of whole 21 20 ≡ percent_of whole 21 20)
    × (UserBlocks whole 5 db "ann" ann fresh 21 20 monthly
        ⊎ ((t : Team whole) × (team_of whole db ann ≡ some t)
            × TeamBlocks whole 5 db t.id t fresh 21 20 monthly))
check_budget-refused_example =
    check_budget-refused whole 5 db "ann" ann fresh 21 20 monthly (percent_of whole 21 20) refl
      (unfold check_budget new_cache lookup in refl)

check_budget-blocks_example : IsRefused whole (check_budget whole 5 db "ann" fresh).0
check_budget-blocks_example =
    check_budget-blocks whole 5 db "ann" ann fresh 21 20 monthly refl
      (inr (team, refl, team_blocks))

check_team-refused_iff_example :
    (check_team_budget_only whole 5 db 7 fresh).0 ≡ refused 21 20 monthly (percent_of whole 21 20)
check_team-refused_iff_example =
    (check_team-refused_iff whole 5 db 7 team fresh 21 20 monthly refl).1 team_blocks
