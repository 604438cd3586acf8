-- ===== src/Budget/Enforcement/Blocking.antt =====
-- When the budget checks of src/api/handlers.rs refuse a request, and what the refusal shows.
use mathlib.Core.Logic.{◌↔◌}
use claude_code_aws_gateway.Prelude.{
  ℕ, ◌≡◌, ◌⊎◌, inl, inr, refl, sym, ap, ◌∙◌, Bool, true, false, ◌||◌, Option, none, some, List,
  String, arith, Option-cases, Bool-cases,
}
use claude_code_aws_gateway.Prelude.Float.{Float}
use claude_code_aws_gateway.Budget.{
  PolicyRule, BudgetDecision, allow, notified, shaped, blocked, BudgetPeriod, parse, percent_of,
  evaluate, severity, most_restrictive,
}
use claude_code_aws_gateway.Budget.Enforcement.{
  User, Team, BudgetDb, BudgetState, Checked, unlimited, refused, Weighed, team_of, global_default,
  user_limit, user_policy, weigh_user_limit, weigh_amount, weigh_team, weigh_limit, is_blocked,
  combine, answer_to, shown_percent, spend_again, answer_any, check_known, check_budget,
  check_limit, check_team_budget_only,
}
use claude_code_aws_gateway.Budget.Enforcement.Weigh.{
  IsRefused, current_user_spend, current_team_spend, UserBlocks, TeamBlocks, weighed_user,
  weigh_user-weighed, weigh_user-team, weigh_limit-lem, BlocksAs, weighed_user-blocks,
  weigh_limit-blocks, weigh_team-blocks, TeamBlocks-same,
}

module _ (f : Float) where
  open f use {F64}

  most_restrictive-blocked :
      (a b : BudgetDecision)
      → is_blocked f (most_restrictive a b) ≡ (is_blocked f a || is_blocked f b)
  unfolding most_restrictive severity
  most_restrictive-blocked allow allow = refl
  most_restrictive-blocked allow (notified p) = refl
  most_restrictive-blocked allow (shaped p r) = refl
  most_restrictive-blocked allow (blocked p) = refl
  most_restrictive-blocked (notified q) allow = refl
  most_restrictive-blocked (notified q) (notified p) = refl
  most_restrictive-blocked (notified q) (shaped p r) = refl
  most_restrictive-blocked (notified q) (blocked p) = refl
  most_restrictive-blocked (shaped q r) allow = refl
  most_restrictive-blocked (shaped q r) (notified p) = refl
  most_restrictive-blocked (shaped q r) (shaped p r') = refl
  most_restrictive-blocked (shaped q r) (blocked p) = refl
  most_restrictive-blocked (blocked q) allow = refl
  most_restrictive-blocked (blocked q) (notified p) = refl
  most_restrictive-blocked (blocked q) (shaped p r) = refl
  most_restrictive-blocked (blocked q) (blocked p) = refl

  answer_to-refused :
      (percent : F64) (w : Weighed f) (d : BudgetDecision) (spend limit : F64)
      (period : BudgetPeriod) (p : F64)
      → answer_to f percent w d ≡ refused spend limit period p
      → (p ≡ percent_of f spend limit)
        × (is_blocked f d ≡ true)
        × (w.spend ≡ spend)
        × (w.limit ≡ limit)
        × (w.period ≡ period)
  answer_to-refused percent w allow spend limit period p h = absurd (ground arith)
  answer_to-refused percent w (notified q) spend limit period p h = absurd (ground arith)
  answer_to-refused percent w (shaped q r) spend limit period p h = absurd (ground arith)
  answer_to-refused percent w (blocked q) spend limit period p h =
      (ground arith, refl, ground arith, ground arith, ground arith)

  combine-blocks :
      (again : F64) (u t : Option (Weighed f)) (spend limit : F64) (period : BudgetPeriod)
      → BlocksAs f (combine f again u t) spend limit period
      → BlocksAs f u spend limit period ⊎ BlocksAs f t spend limit period
  combine-blocks again none none spend limit period (w, e, b, x, y, z) = absurd (ground arith)
  combine-blocks again (some u) none spend limit period b = inl b
  combine-blocks again none (some t) spend limit period (w, e, b, x, y, z) =
      elim (Bool-cases (is_blocked f t.decision)) [
        | inl k ↦ inr (t, refl, k, ground arith, ground arith, ground arith)
        | inr k ↦ absurd (ground (arith, most_restrictive-blocked allow t.decision))
      ]
  combine-blocks again (some u) (some t) spend limit period (w, e, b, x, y, z) =
      let either = most_restrictive-blocked u.decision t.decision in
      elim (Bool-cases (is_blocked f u.decision)) [
        | inl k ↦ inl (u, refl, k, ground arith, ground arith, ground arith)
        | inr k ↦ elim (Bool-cases (is_blocked f t.decision)) [
          | inl k' ↦ inr (t, refl, k', ground arith, ground arith, ground arith)
          | inr k' ↦ absurd (ground arith)
        ]
      ]

  answer_any-refused :
      (o : Option (Weighed f)) (spend limit : F64) (period : BudgetPeriod) (p : F64)
      → answer_any f o ≡ refused spend limit period p
      → (p ≡ percent_of f spend limit) × BlocksAs f o spend limit period
  answer_any-refused none spend limit period p h = absurd (ground arith)
  answer_any-refused (some w) spend limit period p h =
      let (a, b, x, y, z) =
        answer_to-refused (shown_percent f w) w w.decision spend limit period p h in
      (a, (w, refl, b, x, y, z))

  check_known-refused :
      (now : ℕ) (db : BudgetDb f) (identity : String) (user : User f) (s : BudgetState f)
      (spend limit : F64) (period : BudgetPeriod) (percent : F64)
      → (check_known f now db identity user s).0 ≡ refused spend limit period percent
      → (percent ≡ percent_of f spend limit)
        × (UserBlocks f now db identity user s spend limit period
            ⊎ ((team : Team f) × (team_of f db user ≡ some team)
                × TeamBlocks f now db team.id team s spend limit period))
  check_known-refused now db identity user s spend limit period percent h =
      let team = team_of f db user in
      let gd = global_default f db user.spend_limit_monthly_usd team in
      let policy = user_policy f db team gd in
      let budget = user_limit f user.spend_limit_monthly_usd (parse user.budget_period) team gd in
      let (u, s') = weigh_user_limit f now db identity user policy s budget in
      let (t, s'') = weigh_team f now db team s' in
      let (p, b) =
        answer_any-refused (combine f (spend_again f now team s'') u t) spend limit period percent
          h in
      (
        p,
        elim (combine-blocks (spend_again f now team s'') u t spend limit period b) [
          | inl bu ↦
              let (e, x, y) =
                weighed_user-blocks f now db identity policy s budget spend limit period
                  (rw (weigh_user-weighed f now db identity user policy s budget) at bu) in
              inl (record { budget = e; spent = x; blocks = y })
          | inr bt ↦
              let (tm, is, bl) = weigh_team-blocks f now db team s' spend limit period bt in
              inr (
                tm,
                is,
                TeamBlocks-same f now db tm.id tm s s' spend limit period
                    (weigh_user-team f now db identity user policy s budget tm.id) bl,
              )
        ],
      )

  -- A refusal shows a budget that itself blocks: the spend, the limit and the period are those of
  -- the user's budget or of the team's, its own policy blocks at its current spend, and the
  -- percentage is that of the two amounts.
  pub check_budget-refused :
      (now : ℕ) (db : BudgetDb f) (identity : String) (user : User f) (s : BudgetState f)
      (spend limit : F64) (period : BudgetPeriod) (percent : F64)
      → db.user_by_email identity ≡ some user
      → (check_budget f now db identity s).0 ≡ refused spend limit period percent
      → (percent ≡ percent_of f spend limit)
        × (UserBlocks f now db identity user s spend limit period
            ⊎ ((team : Team f) × (team_of f db user ≡ some team)
                × TeamBlocks f now db team.id team s spend limit period))
  unfolding check_budget
  check_budget-refused now db identity user s spend limit period percent known h =
      check_known-refused now db identity user s spend limit period percent
        (rw (known, check_budget) at h)

  abbrev blocks_any : Option (Weighed f) → Bool
  blocks_any none = false
  blocks_any (some w) = is_blocked f w.decision

  combine-any :
      (again : F64) (u t : Option (Weighed f))
      → blocks_any (combine f again u t) ≡ (blocks_any u || blocks_any t)
  combine-any again none none = refl
  combine-any again (some u) none = ground arith
  combine-any again none (some t) = ground (arith, most_restrictive-blocked allow t.decision)
  combine-any again (some u) (some t) =
      ground (arith, most_restrictive-blocked u.decision t.decision)

  answer_to-IsRefused :
      (percent : F64) (w : Weighed f) (d : BudgetDecision)
      → is_blocked f d ≡ true
      → IsRefused f (answer_to f percent w d)
  answer_to-IsRefused percent w allow h = absurd (ground arith)
  answer_to-IsRefused percent w (notified q) h = absurd (ground arith)
  answer_to-IsRefused percent w (shaped q r) h = absurd (ground arith)
  answer_to-IsRefused percent w (blocked q) h = tt

  answer_any-IsRefused :
      (o : Option (Weighed f)) → blocks_any o ≡ true → IsRefused f (answer_any f o)
  answer_any-IsRefused none h = absurd (ground arith)
  answer_any-IsRefused (some w) h = answer_to-IsRefused (shown_percent f w) w w.decision h

  weigh_team-any :
      (now : ℕ) (db : BudgetDb f) (team : Team f) (s : BudgetState f) (spend limit : F64)
      (period : BudgetPeriod)
      → TeamBlocks f now db team.id team s spend limit period
      → blocks_any (weigh_team f now db (some team) s).0 ≡ true
  weigh_team-any now db team s spend limit period b =
      let sp : spend ≡ current_team_spend f now db team.id (parse team.budget_period) s =
        b.spent ∙ ap (λ q. current_team_spend f now db team.id q s) b.current_period in
      rw (b.budget, weigh_amount)
        (ap (λ (v : Weighed f). is_blocked f v.decision)
            (weigh_limit-lem f now db team.id team limit s)
          ∙ rw (← sp) b.blocks)

  weigh_user-any :
      (now : ℕ) (db : BudgetDb f) (identity : String) (user : User f) (policy : List PolicyRule)
      (s : BudgetState f) (budget : Option F64 × BudgetPeriod) (spend limit : F64)
      (period : BudgetPeriod)
      → budget ≡ (some limit, period)
      → spend ≡ current_user_spend f now db identity period s
      → is_blocked f (evaluate f policy spend limit) ≡ true
      → blocks_any (weigh_user_limit f now db identity user policy s budget).0 ≡ true
  weigh_user-any now db identity user policy s budget spend limit period e sp bl =
      ap blocks_any (
        weigh_user-weighed f now db identity user policy s budget
        ∙ ap (weighed_user f now db identity policy s) e)
      ∙ rw (← sp) bl

  -- A known user whose own budget or whose team's budget blocks at its current spend is refused.
  pub check_budget-blocks :
      (now : ℕ) (db : BudgetDb f) (identity : String) (user : User f) (s : BudgetState f)
      (spend limit : F64) (period : BudgetPeriod)
      → db.user_by_email identity ≡ some user
      → (UserBlocks f now db identity user s spend limit period
          ⊎ ((team : Team f) × (team_of f db user ≡ some team)
              × TeamBlocks f now db team.id team s spend limit period))
      → IsRefused f (check_budget f now db identity s).0
  unfolding check_budget
  check_budget-blocks now db identity user s spend limit period known either =
      let team = team_of f db user in
      let gd = global_default f db user.spend_limit_monthly_usd team in
      let policy = user_policy f db team gd in
      let budget = user_limit f user.spend_limit_monthly_usd (parse user.budget_period) team gd in
      let (u, s') = weigh_user_limit f now db identity user policy s budget in
      let (t, s'') = weigh_team f now db team s' in
      let again = spend_again f now team s'' in
      let one : (blocks_any u || blocks_any t) ≡ true = elim either [
        | inl b ↦
            let h =
              weigh_user-any now db identity user policy s budget spend limit period b.budget
                b.spent b.blocks in
            ground arith
        | inr (tm, is, b) ↦
            let same = sym (weigh_user-team f now db identity user policy s budget tm.id) in
            let h =
              weigh_team-any now db tm s' spend limit period
                (TeamBlocks-same f now db tm.id tm s' s spend limit period same b) in
            let h' : blocks_any t ≡ true =
              ap (λ o. blocks_any (weigh_team f now db o s').0) is ∙ h in
            ground arith
      ] in
      rw (known, check_budget)
        (answer_any-IsRefused (combine f again u t) (combine-any again u t ∙ one))

  answer_to-blocked :
      (percent : F64) (w : Weighed f) (d : BudgetDecision)
      → is_blocked f d ≡ true
      → answer_to f percent w d ≡ refused w.spend w.limit w.period (percent_of f w.spend w.limit)
  answer_to-blocked percent w allow h = absurd (ground arith)
  answer_to-blocked percent w (notified q) h = absurd (ground arith)
  answer_to-blocked percent w (shaped q r) h = absurd (ground arith)
  answer_to-blocked percent w (blocked q) h = refl

  weigh_limit-refuses :
      (now : ℕ) (db : BudgetDb f) (id : ℕ) (team : Team f) (s : BudgetState f) (spend limit : F64)
      (period : BudgetPeriod)
      → TeamBlocks f now db id team s spend limit period
      → (check_limit f now db id team limit s).0
        ≡ refused spend limit period (percent_of f spend limit)
  weigh_limit-refuses now db id team s spend limit period b =
      let sp : spend ≡ current_team_spend f now db id (parse team.budget_period) s =
        b.spent ∙ ap (λ q. current_team_spend f now db id q s) b.current_period in
      let w = (weigh_limit f now db id team limit s).0 in
      let is = weigh_limit-lem f now db id team limit s in
      let d : is_blocked f w.decision ≡ true =
        ap (λ (v : Weighed f). is_blocked f v.decision) is ∙ rw (← sp) b.blocks in
      answer_to-blocked (percent_of f w.spend w.limit) w w.decision d
      ∙ ap (λ (v : Weighed f). refused v.spend v.limit v.period (percent_of f v.spend v.limit)) is
      ∙ rw (← sp, ← b.current_period) refl

  -- A key that belongs to a team alone is refused exactly if the team's budget blocks at its current
  -- spend, and the refusal shows that budget.
  pub check_team-refused_iff :
      (now : ℕ) (db : BudgetDb f) (team_id : ℕ) (team : Team f) (s : BudgetState f)
      (spend limit : F64) (period : BudgetPeriod)
      → db.team_by_id team_id ≡ some team
      → ((check_team_budget_only f now db team_id s).0
          ≡ refused spend limit period (percent_of f spend limit))
        ↔ TeamBlocks f now db team_id team s spend limit period
  unfolding check_team_budget_only
  check_team-refused_iff now db team_id team s spend limit period known = (
    λ h. elim (Option-cases team.budget_amount_usd) [
      | inl unset ↦
          let h' : ◌≡◌ {A = Checked f} unlimited
              (refused spend limit period (percent_of f spend limit)) =
            rw (known, check_team_budget_only, unset) at h in
          absurd (ground arith)
      | inr (l, has) ↦
          let w = (weigh_limit f now db team_id team l s).0 in
          let (p, b, x, y, z) =
            answer_to-refused (percent_of f w.spend w.limit) w w.decision spend limit period _
              (rw (known, check_team_budget_only, has) at h) in
          weigh_limit-blocks f now db team_id team s l spend limit period has (w, refl, b, x, y, z)
    ],
    λ b.
        rw (known, check_team_budget_only, b.budget)
          (weigh_limit-refuses now db team_id team s spend limit period b),
  )
