-- ===== src/Budget/Cache.antt =====
-- `BudgetSpendCache` of src/budget/mod.rs: two maps whose entries expire. Instants and durations
-- are counted in nanoseconds; `elapsed` is 0 for an instant that lies ahead, as in the library.
use claude_code_aws_gateway.Prelude.{
  ℕ, ◌-◌, ◌*◌, ◌≤◌, ◌≡◌, refl, Bool, List, [], ◌∷◌, Option, none, some, String, arith, ltb, nat_eq,
  string_eq, if◌then◌else◌,
}
use claude_code_aws_gateway.Prelude.Assoc.{
  Assoc, lookup, insert, retain_values, filter_option, Unique, Unique-nil, insert-Unique,
  lookup-retain_values, retain_values-Unique,
}

pub record CachedSpend (A : Type 0) : Type 0 where
  pub amount : A
  pub fetched_at : ℕ

pub record BudgetSpendCache (A : Type 0) : Type 0 where
  pub user_cache : Assoc String (CachedSpend A)
  pub team_cache : Assoc ℕ (CachedSpend A)
  pub ttl : ℕ

abbrev pub nanos_per_sec : ℕ
nanos_per_sec = 1_000_000_000

module _ {A : Type 0} where
  -- An entry that is there and younger than the ttl.
  abbrev pub fresh_amount : ℕ → ℕ → Option (CachedSpend A) → Option A
  fresh_amount ttl now none = none
  fresh_amount ttl now (some entry) =
      if ltb (now - entry.fetched_at) ttl then some entry.amount else none

  unfoldable pub get_user_spend : ℕ → String → BudgetSpendCache A → Option A
  get_user_spend now identity c = fresh_amount c.ttl now (lookup identity c.user_cache)

  unfoldable pub get_team_spend : ℕ → ℕ → BudgetSpendCache A → Option A
  get_team_spend now team_id c = fresh_amount c.ttl now (lookup team_id c.team_cache)

  unfoldable pub set_user_spend : ℕ → String → A → BudgetSpendCache A → BudgetSpendCache A
  set_user_spend now identity amount c = record c {
    user_cache = insert identity (record { amount = amount; fetched_at = now }) c.user_cache;
  }

  unfoldable pub set_team_spend : ℕ → ℕ → A → BudgetSpendCache A → BudgetSpendCache A
  set_team_spend now team_id amount c = record c {
    team_cache = insert team_id (record { amount = amount; fetched_at = now }) c.team_cache;
  }

  abbrev keeps : ℕ → ℕ → CachedSpend A → Bool
  keeps ttl now entry = ltb (now - entry.fetched_at) (ttl * 2)

  pub cleanup : ℕ → BudgetSpendCache A → BudgetSpendCache A
  cleanup now c = record c {
    user_cache = retain_values (keeps c.ttl now) c.user_cache;
    team_cache = retain_values (keeps c.ttl now) c.team_cache;
  }

-- `BudgetSpendCache::new`.
unfoldable pub new_cache : (A : Type 0) → ℕ → BudgetSpendCache A
new_cache A ttl_secs = record { user_cache = []; team_cache = []; ttl = ttl_secs * nanos_per_sec }

-- A call that changes the cache, with the time at which it is made.
pub data CacheCall (A : Type 0) : Type 0 where
  set_user : ℕ → String → A → CacheCall A
  set_team : ℕ → ℕ → A → CacheCall A
  clean : ℕ → CacheCall A

module _ {A : Type 0} where
  pub cache_step : CacheCall A → BudgetSpendCache A → BudgetSpendCache A
  unfolding set_user_spend set_team_spend cleanup
  cache_step (set_user now identity amount) c = set_user_spend now identity amount c
  cache_step (set_team now team_id amount) c = set_team_spend now team_id amount c
  cache_step (clean now) c = cleanup now c

  pub cache_run : List (CacheCall A) → BudgetSpendCache A → BudgetSpendCache A
  unfolding cache_step
  cache_run [] c = c
  cache_run (call ∷ calls) c = cache_run calls (cache_step call c)

  record IsMapped (c : BudgetSpendCache A) : Type 0 where
    users : Unique c.user_cache
    teams : Unique c.team_cache

  cache_step-IsMapped :
      (call : CacheCall A) (c : BudgetSpendCache A) → IsMapped c → IsMapped (cache_step call c)
  unfolding cache_step
  cache_step-IsMapped (set_user now identity amount) c m = record {
    users = insert-Unique identity _ c.user_cache m.users;
    teams = m.teams;
  }
  cache_step-IsMapped (set_team now team_id amount) c m = record {
    users = m.users;
    teams = insert-Unique team_id _ c.team_cache m.teams;
  }
  cache_step-IsMapped (clean now) c m = record {
    users = retain_values-Unique _ c.user_cache m.users;
    teams = retain_values-Unique _ c.team_cache m.teams;
  }

  cache_run-IsMapped :
      (calls : List (CacheCall A)) (c : BudgetSpendCache A)
      → IsMapped c
      → IsMapped (cache_run calls c)
  unfolding cache_run
  cache_run-IsMapped [] c m = m
  cache_run-IsMapped (call ∷ calls) c m =
      cache_run-IsMapped calls (cache_step call c) (cache_step-IsMapped call c m)

  -- Past the ttl an entry is not served, and before twice the ttl it is not evicted.
  fresh_amount-filter :
      (ttl now later : ℕ) (o : Option (CachedSpend A))
      → now ≤ later
      → fresh_amount ttl later (filter_option (keeps ttl now) o) ≡ fresh_amount ttl later o
  fresh_amount-filter ttl now later none h = refl
  fresh_amount-filter ttl now later (some entry) h = ground arith

new_cache-IsMapped : (A : Type 0) (ttl_secs : ℕ) → IsMapped (new_cache A ttl_secs)
unfolding new_cache
new_cache-IsMapped A ttl_secs = record {
  users = Unique-nil String (CachedSpend A);
  teams = Unique-nil ℕ (CachedSpend A);
}

module _ {A : Type 0} where
  -- After any history of calls, a cleanup changes no later answer for any user or team.
  pub cleanup_invisible :
      (ttl_secs : ℕ) (calls : List (CacheCall A)) (now later : ℕ) (identity : String) (team_id : ℕ)
      → now ≤ later
      → let c = cache_run calls (new_cache A ttl_secs) in
        (get_user_spend later identity (cleanup now c) ≡ get_user_spend later identity c)
        × (get_team_spend later team_id (cleanup now c) ≡ get_team_spend later team_id c)
  unfolding get_user_spend get_team_spend cleanup
  cleanup_invisible ttl_secs calls now later identity team_id h =
      let c = cache_run calls (new_cache A ttl_secs) in
      let m = cache_run-IsMapped calls _ (new_cache-IsMapped A ttl_secs) in
      (
        rw (lookup-retain_values (keeps c.ttl now) identity c.user_cache m.users)
            (fresh_amount-filter c.ttl now later (lookup identity c.user_cache) h),
        rw (lookup-retain_values (keeps c.ttl now) team_id c.team_cache m.teams)
            (fresh_amount-filter c.ttl now later (lookup team_id c.team_cache) h),
      )
