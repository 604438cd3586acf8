-- ===== src/Budget/Enforcement/Weigh.antt =====
-- What the user's and the team's budget come to in src/api/handlers.rs, and what it means that one of
-- them blocks.
use claude_code_aws_gateway.Prelude.{
  ℕ, ◌≡◌, inl, inr, refl, sym, ap, ◌∙◌, true, Option, none, some, List, String, arith, Option-cases,
}
use claude_code_aws_gateway.Prelude.Float.{Float}
use claude_code_aws_gateway.Budget.{PolicyRule, BudgetPeriod, parse, preset_standard, evaluate}
use claude_code_aws_gateway.Budget.Cache.{get_user_spend, get_team_spend, set_user_spend}
use claude_code_aws_gateway.Budget.Enforcement.{
  unwrap_or, User, Team, BudgetDb, BudgetState, Checked, refused, Weighed, team_of, global_default,
  user_limit, insert_event, user_policy, team_policy_of, cached_user_spend, cached_team_spend,
  weigh_user_limit, event_of, weigh_amount, weigh_team, weigh_limit, is_blocked,
}

module _ (f : Float) where
  open f use {F64, of_nat}

  abbrev pub IsRefused : Checked f → Type 0
  IsRefused (refused _ _ _ _) = Unit
  IsRefused _ = ⊥

  -- The spend that a check goes by.
  abbrev pub current_user_spend : ℕ → BudgetDb f → String → BudgetPeriod → BudgetState f → F64
  current_user_spend now db identity period s =
      unwrap_or (get_user_spend now identity s.cache)
        (unwrap_or (db.user_spend identity period) (of_nat 0))

  abbrev pub current_team_spend : ℕ → BudgetDb f → ℕ → BudgetPeriod → BudgetState f → F64
  current_team_spend now db team_id period s =
      unwrap_or (get_team_spend now team_id s.cache)
        (unwrap_or (db.team_spend team_id period) (of_nat 0))

  -- The policy of this budget blocks at the current spend.
  pub record UserBlocks (now : ℕ) (db : BudgetDb f) (identity : String) (user : User f)
      (s : BudgetState f) (spend limit : F64) (period : BudgetPeriod) : Type 0 where
    pub budget :
        user_limit f user.spend_limit_monthly_usd
          (parse user.budget_period)
          (team_of f db user)
          (global_default f db user.spend_limit_monthly_usd (team_of f db user))
        ≡ (some limit, period)
    pub spent : spend ≡ current_user_spend now db identity period s
    pub blocks :
        is_blocked f (
          evaluate f
            (user_policy f db
              (team_of f db user)
              (global_default f db user.spend_limit_monthly_usd (team_of f db user)))
            spend
            limit)
        ≡ true

  pub record TeamBlocks (now : ℕ) (db : BudgetDb f) (id : ℕ) (team : Team f) (s : BudgetState f)
      (spend limit : F64) (period : BudgetPeriod) : Type 0 where
    pub budget : team.budget_amount_usd ≡ some limit
    pub current_period : period ≡ parse team.budget_period
    pub spent : spend ≡ current_team_spend now db id period s
    pub blocks :
        is_blocked f (evaluate f (unwrap_or (team_policy_of f db team) preset_standard) spend limit)
        ≡ true

  pub cached_user_spend-current :
      (now : ℕ) (db : BudgetDb f) (identity : String) (period : BudgetPeriod) (s : BudgetState f)
      → (cached_user_spend f now db identity period s).0
        ≡ current_user_spend now db identity period s
  cached_user_spend-current now db identity period s =
      elim (Option-cases (get_user_spend now identity s.cache)) [
        | inl e ↦ rw (e, cached_user_spend) refl
        | inr (spend, e) ↦ rw (e, cached_user_spend) refl
      ]

  pub cached_team_spend-current :
      (now : ℕ) (db : BudgetDb f) (id : ℕ) (period : BudgetPeriod) (s : BudgetState f)
      → (cached_team_spend f now db id period s).0 ≡ current_team_spend now db id period s
  cached_team_spend-current now db id period s =
      elim (Option-cases (get_team_spend now id s.cache)) [
        | inl e ↦ rw (e, cached_team_spend) refl
        | inr (spend, e) ↦ rw (e, cached_team_spend) refl
      ]

  -- A user's budget does not touch what is cached for a team.
  pub cached_user_spend-team :
      (now : ℕ) (db : BudgetDb f) (identity : String) (period : BudgetPeriod) (s : BudgetState f)
      (id : ℕ)
      → get_team_spend now id (cached_user_spend f now db identity period s).1.cache
        ≡ get_team_spend now id s.cache
  unfolding set_user_spend get_team_spend
  cached_user_spend-team now db identity period s id =
      elim (Option-cases (get_user_spend now identity s.cache)) [
        | inl e ↦ rw (e, cached_user_spend) refl
        | inr (spend, e) ↦ rw (e, cached_user_spend) refl
      ]

  pub insert_event-cache :
      (identity : Option String) (id : Option ℕ) (o : Option (String × ℕ)) (spend limit : F64)
      (period : BudgetPeriod) (s : BudgetState f)
      → (insert_event f identity id o spend limit period s).cache ≡ s.cache
  insert_event-cache identity id none spend limit period s = refl
  insert_event-cache identity id (some (e, t)) spend limit period s = refl

  -- What a user's budget comes to.
  abbrev pub weighed_user :
      ℕ
      → BudgetDb f
      → String
      → List PolicyRule
      → BudgetState f
      → Option F64 × BudgetPeriod
      → Option (Weighed f)
  weighed_user now db identity policy s (none, period) = none
  weighed_user now db identity policy s (some limit, period) =
      let spend = current_user_spend now db identity period s in
      some (record {
        decision = evaluate f policy spend limit;
        spend = spend;
        limit = limit;
        period = period;
      })

  pub weigh_user-weighed :
      (now : ℕ) (db : BudgetDb f) (identity : String) (user : User f) (policy : List PolicyRule)
      (s : BudgetState f) (budget : Option F64 × BudgetPeriod)
      → (weigh_user_limit f now db identity user policy s budget).0
        ≡ weighed_user now db identity policy s budget
  weigh_user-weighed now db identity user policy s (none, period) = refl
  weigh_user-weighed now db identity user policy s (some limit, period) =
      rw (cached_user_spend-current now db identity period s) refl

  pub weigh_user-team :
      (now : ℕ) (db : BudgetDb f) (identity : String) (user : User f) (policy : List PolicyRule)
      (s : BudgetState f) (budget : Option F64 × BudgetPeriod) (id : ℕ)
      → get_team_spend now id (weigh_user_limit f now db identity user policy s budget).1.cache
        ≡ get_team_spend now id s.cache
  weigh_user-team now db identity user policy s (none, period) id = refl
  weigh_user-team now db identity user policy s (some limit, period) id =
      let (spend, s') = cached_user_spend f now db identity period s in
      rw
        (insert_event-cache (some identity) user.team_id
          (event_of f "notify" "shape" "block" (evaluate f policy spend limit)) spend limit period
          s')
        (cached_user_spend-team now db identity period s id)

  pub weigh_limit-lem :
      (now : ℕ) (db : BudgetDb f) (id : ℕ) (team : Team f) (limit : F64) (s : BudgetState f)
      → let period = parse team.budget_period in
        let spend = current_team_spend now db id period s in
        (weigh_limit f now db id team limit s).0 ≡ record {
          decision = evaluate f (unwrap_or (team_policy_of f db team) preset_standard) spend limit;
          spend = spend;
          limit = limit;
          period = period;
        }
  weigh_limit-lem now db id team limit s =
      rw (cached_team_spend-current now db id (parse team.budget_period) s) refl

  -- The budget w blocks, and it is the one that is shown.
  abbrev pub BlocksAs : Option (Weighed f) → F64 → F64 → BudgetPeriod → Type 0
  BlocksAs o spend limit period =
      (w : Weighed f) × (o ≡ some w)
      × (is_blocked f w.decision ≡ true)
      × (w.spend ≡ spend)
      × (w.limit ≡ limit)
      × (w.period ≡ period)

  pub weighed_user-blocks :
      (now : ℕ) (db : BudgetDb f) (identity : String) (policy : List PolicyRule) (s : BudgetState f)
      (budget : Option F64 × BudgetPeriod) (spend limit : F64) (period : BudgetPeriod)
      → BlocksAs (weighed_user now db identity policy s budget) spend limit period
      → (budget ≡ (some limit, period))
        × (spend ≡ current_user_spend now db identity period s)
        × (is_blocked f (evaluate f policy spend limit) ≡ true)
  weighed_user-blocks now db identity policy s (none, p) spend limit period (w, e, b, x, y, z) =
      absurd (ground arith)
  weighed_user-blocks now db identity policy s (some l, p) spend limit period (w, e, b, x, y, z) =
      let spend' = current_user_spend now db identity p s in
      let same : ◌≡◌ {A = Weighed f}
          (record { decision = evaluate f policy spend' l; spend = spend'; limit = l; period = p })
          w =
        ground arith in
      let at_limit : l ≡ limit = ap (λ (v : Weighed f). v.limit) same ∙ y in
      let at_period : p ≡ period = ap (λ (v : Weighed f). v.period) same ∙ z in
      let at_spend : spend' ≡ spend = ap (λ (v : Weighed f). v.spend) same ∙ x in
      let blocks : is_blocked f (evaluate f policy spend' l) ≡ true =
        ap (λ (v : Weighed f). is_blocked f v.decision) same ∙ b in
      (
        cc,
        sym at_spend ∙ ap (λ q. current_user_spend now db identity q s) at_period,
        rw (← at_spend, ← at_limit) blocks,
      )

  pub weigh_limit-blocks :
      (now : ℕ) (db : BudgetDb f) (id : ℕ) (team : Team f) (s : BudgetState f) (l : F64)
      (spend limit : F64) (period : BudgetPeriod)
      → team.budget_amount_usd ≡ some l
      → BlocksAs (some (weigh_limit f now db id team l s).0) spend limit period
      → TeamBlocks now db id team s spend limit period
  weigh_limit-blocks now db id team s l spend limit period has (w, e, b, x, y, z) =
      let r = (weigh_limit f now db id team l s).0 in
      let same : r ≡ w = ground arith in
      let is = sym (weigh_limit-lem now db id team l s) ∙ same in
      let at_limit : l ≡ limit = ap (λ (v : Weighed f). v.limit) is ∙ y in
      let at_period : parse team.budget_period ≡ period = ap (λ (v : Weighed f). v.period) is ∙ z in
      let at_spend : current_team_spend now db id (parse team.budget_period) s ≡ spend =
        ap (λ (v : Weighed f). v.spend) is ∙ x in
      let blocks = ap (λ (v : Weighed f). is_blocked f v.decision) is ∙ b in
      record {
        budget = has ∙ ap some at_limit;
        current_period = sym at_period;
        spent = sym at_spend ∙ ap (λ q. current_team_spend now db id q s) at_period;
        blocks = rw (← at_spend, ← at_limit) blocks;
      }

  pub weigh_team-blocks :
      (now : ℕ) (db : BudgetDb f) (team : Option (Team f)) (s : BudgetState f) (spend limit : F64)
      (period : BudgetPeriod)
      → BlocksAs (weigh_team f now db team s).0 spend limit period
      → (t : Team f) × (team ≡ some t) × TeamBlocks now db t.id t s spend limit period
  weigh_team-blocks now db none s spend limit period (w, e, b, x, y, z) = absurd (ground arith)
  weigh_team-blocks now db (some t) s spend limit period bl =
      elim (Option-cases t.budget_amount_usd) [
        | inl none_set ↦ let (w, e, b, x, y, z) = bl in absurd (ground arith)
        | inr (l, has) ↦ (
          t,
          refl,
          weigh_limit-blocks now db t.id t s l spend limit period has
              (rw (has, weigh_amount) at bl),
        )
      ]

  pub TeamBlocks-same :
      (now : ℕ) (db : BudgetDb f) (id : ℕ) (team : Team f) (s s' : BudgetState f)
      (spend limit : F64) (period : BudgetPeriod)
      → get_team_spend now id s'.cache ≡ get_team_spend now id s.cache
      → TeamBlocks now db id team s' spend limit period
      → TeamBlocks now db id team s spend limit period
  TeamBlocks-same now db id team s s' spend limit period same b = record {
    budget = b.budget;
    current_period = b.current_period;
    spent = b.spent ∙ ap (λ o. unwrap_or o (unwrap_or (db.team_spend id period) (of_nat 0))) same;
    blocks = b.blocks;
  }
