-- ===== src/Budget/Enforcement/Settings.antt =====
-- Which budget applies to a user in `check_budget` of src/api/handlers.rs, and what the global default
-- settings reach.
use claude_code_aws_gateway.Prelude.{ℕ, ◌≡◌, refl, Option, none, some, String}
use claude_code_aws_gateway.Prelude.Float.{Float}
use claude_code_aws_gateway.Budget.Enforcement.{
  User, Team, BudgetDb, BudgetState, team_of, global_default, check_known, check_budget,
}

module _ (f : Float) where
  open f use {F64}

  -- The same database with other settings.
  abbrev pub with_settings : (String → Option String) → BudgetDb f → BudgetDb f
  with_settings settings db = record db { setting = settings }

  no_default :
      (db : BudgetDb f) (user : User f) (limit : F64) (team : Option (Team f))
      → user.spend_limit_monthly_usd ≡ some limit
      → global_default f db user.spend_limit_monthly_usd team ≡ none
  no_default db user limit none has = rw has refl
  no_default db user limit (some team) has = rw has refl

  -- For a user with a limit of their own, the global default settings make no difference: also the
  -- default policy is not used, and the standard preset applies where the user's team has no policy.
  pub check_budget-settings :
      (now : ℕ) (db : BudgetDb f) (settings : String → Option String) (identity : String)
      (user : User f) (limit : F64) (s : BudgetState f)
      → db.user_by_email identity ≡ some user
      → user.spend_limit_monthly_usd ≡ some limit
      → check_budget f now (with_settings settings db) identity s ≡ check_budget f now db identity s
  unfolding check_budget
  check_budget-settings now db settings identity user limit s known has =
      let team = team_of f db user in
      rw
        (
          known,
          check_budget,
          check_known,
          no_default (with_settings settings db) user limit team has,
          no_default db user limit team has,
        )
        refl
