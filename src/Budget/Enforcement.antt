-- ===== src/Budget/Enforcement.antt =====
-- `check_budget` and `check_team_budget_only` of src/api/handlers.rs: the budgets that bind a request
-- and what is answered. The database is an argument: a lookup that fails is one without a result,
-- as the source treats it. A period stands for the timestamps that are computed from it, and a
-- response for the amounts that its headers and its body show.
pub mod Weigh
pub mod Blocking
pub mod Settings
mod Tests
use claude_code_aws_gateway.Prelude.{
  ℕ, ◌+◌, ◌-◌, ◌^◌, Bool, true, false, not, ◌&&◌, Option, none, some, List, [], ◌∷◌, ◌++◌, String,
  ltb, if◌then◌else◌,
}
use claude_code_aws_gateway.Prelude.Float.{Float}
use claude_code_aws_gateway.Prelude.Int.{ℤ, pos, negsuc}
use claude_code_aws_gateway.Json.{Json}
use claude_code_aws_gateway.Budget.{
  PolicyRule, BudgetDecision, allow, notified, shaped, blocked, BudgetPeriod, monthly, parse,
  as_str, preset_standard, percent_of, evaluate, most_restrictive,
}
use claude_code_aws_gateway.Budget.Cache.{
  BudgetSpendCache, get_user_spend, get_team_spend, set_user_spend, set_team_spend,
}

abbrev pub bind {ℓ κ} : {A : Type ℓ} {B : Type κ} → Option A → (A → Option B) → Option B
bind none g = none
bind (some a) g = g a

abbrev pub unwrap_or {ℓ} : {A : Type ℓ} → Option A → A → A
unwrap_or none d = d
unwrap_or (some a) d = a

abbrev pub or_else {ℓ} : {A : Type ℓ} → Option A → Option A → Option A
or_else none o = o
or_else (some a) o = some a

-- `threshold as i32` of a threshold of 32 bits.
abbrev pub as_i32 : ℕ → ℤ
as_i32 n = if ltb n (2 ^ 31) then pos n else negsuc (2 ^ 32 - 1 - n)

module _ (f : Float) where
  open f use {F64, of_nat, div, mul, sub, gt, max}

  pub record User : Type 0 where
    pub team_id : Option ℕ
    pub spend_limit_monthly_usd : Option F64
    pub budget_period : String

  pub record Team : Type 0 where
    pub id : ℕ
    pub budget_amount_usd : Option F64
    pub budget_period : String
    pub budget_policy : Option Json
    pub default_user_budget_usd : Option F64

  -- What Postgres and serde answer.
  pub record BudgetDb : Type 0 where
    pub user_by_email : String → Option User
    pub team_by_id : ℕ → Option Team
    pub setting : String → Option String
    pub user_spend : String → BudgetPeriod → Option F64
    pub team_spend : ℕ → BudgetPeriod → Option F64
    pub policy_of_value : Json → Option (List PolicyRule)
    pub policy_of_text : String → Option (List PolicyRule)
    pub f64_of_text : String → Option F64

  pub record BudgetEvent : Type 0 where
    pub user_identity : Option String
    pub team_id : Option ℕ
    pub event_type : String
    pub threshold_percent : ℤ
    pub spend_usd : F64
    pub limit_usd : F64
    pub percent : F64
    pub period : String
    pub period_start : BudgetPeriod

  -- The cache, and the events that the database was asked to insert.
  pub record BudgetState : Type 0 where
    pub cache : BudgetSpendCache F64
    pub events : List BudgetEvent

  pub record BudgetStatus : Type 0 where
    pub percent : F64
    pub remaining_usd : F64
    pub status : String
    pub resets : BudgetPeriod
    pub shaped_rpm : Option ℕ

  -- `Ok(None)`, `Ok(Some(status))`, and the response of `budget_block_response` with its percentage.
  pub data Checked : Type 0 where
    unlimited : Checked
    within : BudgetStatus → Checked
    refused : F64 → F64 → BudgetPeriod → F64 → Checked

  pub record DefaultBudget : Type 0 where
    pub amount : F64
    pub period : BudgetPeriod
    pub policy : Option (List PolicyRule)

  abbrev pub period_of : Option String → BudgetPeriod
  period_of none = monthly
  period_of (some s) = parse s

  abbrev pub load_default_budget : BudgetDb → Option DefaultBudget
  load_default_budget db = bind (bind (db.setting "default_budget_usd") db.f64_of_text) λ amount.
      some (record {
        amount = amount;
        period = period_of (db.setting "default_budget_period");
        policy = bind (db.setting "default_budget_policy") db.policy_of_text;
      })

  abbrev pub team_of : BudgetDb → User → Option Team
  team_of db user = bind user.team_id db.team_by_id

  -- `global_default`, which is loaded for a user with neither a limit nor a team.
  abbrev pub global_default : BudgetDb → Option F64 → Option Team → Option DefaultBudget
  global_default db none none = load_default_budget db
  global_default db none (some team) = none
  global_default db (some limit) team = none

  -- `(user_limit, effective_period)`
  abbrev pub user_limit :
      Option F64 → BudgetPeriod → Option Team → Option DefaultBudget → Option F64 × BudgetPeriod
  user_limit (some limit) user_period team gd = (some limit, user_period)
  user_limit none user_period (some t) gd = (t.default_user_budget_usd, parse t.budget_period)
  user_limit none user_period none (some gd) = (some gd.amount, gd.period)
  user_limit none user_period none none = (none, user_period)

  abbrev pub team_policy_of : BudgetDb → Team → Option (List PolicyRule)
  team_policy_of db team = bind team.budget_policy db.policy_of_value

  abbrev pub user_policy : BudgetDb → Option Team → Option DefaultBudget → List PolicyRule
  user_policy db team gd =
      unwrap_or (or_else (bind team (team_policy_of db)) (bind gd λ (d : DefaultBudget). d.policy))
        preset_standard

  -- A spend: from the cache, or else from the database and then cached; 0 if the query fails.
  abbrev pub cached_user_spend :
      ℕ → BudgetDb → String → BudgetPeriod → BudgetState → F64 × BudgetState
  cached_user_spend now db identity period s = elim (get_user_spend now identity s.cache) [
    | some spend ↦ (spend, s)
    | none ↦
        let spend = unwrap_or (db.user_spend identity period) (of_nat 0) in
        (spend, record s { cache = set_user_spend now identity spend s.cache })
  ]

  abbrev pub cached_team_spend : ℕ → BudgetDb → ℕ → BudgetPeriod → BudgetState → F64 × BudgetState
  cached_team_spend now db team_id period s = elim (get_team_spend now team_id s.cache) [
    | some spend ↦ (spend, s)
    | none ↦
        let spend = unwrap_or (db.team_spend team_id period) (of_nat 0) in
        (spend, record s { cache = set_team_spend now team_id spend s.cache })
  ]

  -- The kind and the threshold of the event that a decision is recorded as.
  abbrev pub event_of : String → String → String → BudgetDecision → Option (String × ℕ)
  event_of notify shape block allow = none
  event_of notify shape block (notified p) = some (notify, p)
  event_of notify shape block (shaped p _) = some (shape, p)
  event_of notify shape block (blocked p) = some (block, p)

  abbrev pub insert_event :
      Option String
      → Option ℕ
      → Option (String × ℕ)
      → F64
      → F64
      → BudgetPeriod
      → BudgetState
      → BudgetState
  insert_event identity team_id none spend limit period s = s
  insert_event identity team_id (some (event_type, threshold)) spend limit period s = record s {
    events =
        s.events
        ++ record {
          user_identity = identity;
          team_id = team_id;
          event_type = event_type;
          threshold_percent = as_i32 threshold;
          spend_usd = spend;
          limit_usd = limit;
          percent = percent_of f spend limit;
          period = as_str period;
          period_start = period;
        }
          ∷ [];
  }

  -- What a budget came to: its decision and what it was decided on.
  pub record Weighed : Type 0 where
    pub decision : BudgetDecision
    pub spend : F64
    pub limit : F64
    pub period : BudgetPeriod

  abbrev pub weigh_user_limit :
      ℕ
      → BudgetDb
      → String
      → User
      → List PolicyRule
      → BudgetState
      → Option F64 × BudgetPeriod
      → Option Weighed × BudgetState
  weigh_user_limit now db identity user policy s (none, period) = (none, s)
  weigh_user_limit now db identity user policy s (some limit, period) =
      let (spend, s') = cached_user_spend now db identity period s in
      let d = evaluate f policy spend limit in
      (
        some (record { decision = d; spend = spend; limit = limit; period = period }),
        insert_event (some identity) user.team_id (event_of "notify" "shape" "block" d) spend limit
            period s',
      )

  abbrev pub weigh_user :
      ℕ
      → BudgetDb
      → String
      → User
      → Option Team
      → Option DefaultBudget
      → BudgetState
      → Option Weighed × BudgetState
  weigh_user now db identity user team gd s =
      weigh_user_limit now db identity user (user_policy db team gd) s
        (user_limit user.spend_limit_monthly_usd (parse user.budget_period) team gd)

  -- The budget of the team with this id and limit; both handlers have this text.
  abbrev pub weigh_limit : ℕ → BudgetDb → ℕ → Team → F64 → BudgetState → Weighed × BudgetState
  weigh_limit now db team_id team limit s =
      let period = parse team.budget_period in
      let (spend, s') = cached_team_spend now db team_id period s in
      let d = evaluate f (unwrap_or (team_policy_of db team) preset_standard) spend limit in
      (
        record { decision = d; spend = spend; limit = limit; period = period },
        insert_event none (some team_id) (event_of "team_notify" "team_shape" "team_block" d) spend
            limit period s',
      )

  abbrev pub weigh_amount :
      ℕ → BudgetDb → Team → BudgetState → Option F64 → Option Weighed × BudgetState
  weigh_amount now db team s none = (none, s)
  weigh_amount now db team s (some limit) =
      let (w, s') = weigh_limit now db team.id team limit s in (some w, s')

  abbrev pub weigh_team : ℕ → BudgetDb → Option Team → BudgetState → Option Weighed × BudgetState
  weigh_team now db none s = (none, s)
  weigh_team now db (some team) s = weigh_amount now db team s team.budget_amount_usd

  abbrev pub is_blocked : BudgetDecision → Bool
  is_blocked (blocked _) = true
  is_blocked _ = false

  abbrev pub decision_or_allow : Option Weighed → BudgetDecision
  decision_or_allow none = allow
  decision_or_allow (some w) = w.decision

  -- The decision of both budgets, and the budget whose amounts are shown: the team's if it alone
  -- blocks, else the user's if there is one, else the team's with the spend read again.
  abbrev pub combine : F64 → Option Weighed → Option Weighed → Option Weighed
  combine again none none = none
  combine again (some u) none = some u
  combine again none (some t) =
      let decision = most_restrictive allow t.decision in
      if is_blocked t.decision
      then some (record t { decision = decision })
      else some (record t { decision = decision; spend = again })
  combine again (some u) (some t) =
      let decision = most_restrictive u.decision t.decision in
      if is_blocked t.decision && not (is_blocked u.decision)
      then some (record t { decision = decision })
      else some (record u { decision = decision })

  abbrev pub spend_again : ℕ → Option Team → BudgetState → F64
  spend_again now none s = of_nat 0
  spend_again now (some team) s = unwrap_or (get_team_spend now team.id s.cache) (of_nat 0)

  abbrev pub status : F64 → F64 → BudgetPeriod → String → Option ℕ → BudgetStatus
  status percent remaining period text rpm = record {
    percent = percent;
    remaining_usd = remaining;
    status = text;
    resets = period;
    shaped_rpm = rpm;
  }

  -- The `match` on the decision.
  abbrev pub answer_to : F64 → Weighed → BudgetDecision → Checked
  answer_to percent w (blocked _) = refused w.spend w.limit w.period (percent_of f w.spend w.limit)
  answer_to percent w (shaped _ rpm) =
      within (status percent (max (sub w.limit w.spend) (of_nat 0)) w.period "shaped" (some rpm))
  answer_to percent w (notified _) =
      within (status percent (max (sub w.limit w.spend) (of_nat 0)) w.period "warning" none)
  answer_to percent w allow =
      within (status percent (max (sub w.limit w.spend) (of_nat 0)) w.period "ok" none)

  abbrev pub answer : F64 → Weighed → Checked
  answer percent w = answer_to percent w w.decision

  abbrev pub shown_percent : Weighed → F64
  shown_percent w = if gt w.limit (of_nat 0) then percent_of f w.spend w.limit else of_nat 0

  abbrev pub answer_any : Option Weighed → Checked
  answer_any none = unlimited
  answer_any (some w) = answer (shown_percent w) w

  abbrev pub check_known : ℕ → BudgetDb → String → User → BudgetState → Checked × BudgetState
  check_known now db identity user s =
      let team = team_of db user in
      let gd = global_default db user.spend_limit_monthly_usd team in
      let (u, s') = weigh_user now db identity user team gd s in
      let (t, s'') = weigh_team now db team s' in
      (answer_any (combine (spend_again now team s'') u t), s'')

  unfoldable pub check_budget : ℕ → BudgetDb → String → BudgetState → Checked × BudgetState
  unfolding parse as_str evaluate most_restrictive get_user_spend get_team_spend set_user_spend
      set_team_spend
  check_budget now db identity s = elim (db.user_by_email identity) [
    | none ↦ (unlimited, s)
    | some user ↦ check_known now db identity user s
  ]

  abbrev pub check_limit : ℕ → BudgetDb → ℕ → Team → F64 → BudgetState → Checked × BudgetState
  check_limit now db team_id team limit s =
      let (w, s') = weigh_limit now db team_id team limit s in
      (answer (percent_of f w.spend w.limit) w, s')

  unfoldable pub check_team_budget_only : ℕ → BudgetDb → ℕ → BudgetState → Checked × BudgetState
  unfolding parse as_str evaluate get_team_spend set_team_spend
  check_team_budget_only now db team_id s = elim (db.team_by_id team_id) [
    | none ↦ (unlimited, s)
    | some team ↦ elim team.budget_amount_usd [
      | none ↦ (unlimited, s)
      | some limit ↦ check_limit now db team_id team limit s
    ]
  ]
