-- ===== src/Endpoint/Pool/Sticky.antt =====
-- The strategy "sticky_user" of src/endpoint/mod.rs: how long a user is sent back to an endpoint.
use claude_code_aws_gateway.Prelude.{
  ℕ, ◌-◌, ◌/◌, ◌≤◌, ◌<◌, ◌≡◌, inl, inr, refl, ◌∙◌, true, false, Option, some, List, [], ◌∷◌, String,
  arith, leb, length, Bool-cases, ◌==◌, nat_eq, string_eq, beq_self, length-retain-le,
}
use claude_code_aws_gateway.Prelude.Elem.{Elem, any-Elem}
use claude_code_aws_gateway.Prelude.Assoc.{
  Assoc, lookup, retain_values, Unique, insert-Unique, retain_values-Unique, lookup-insert,
  lookup-retain_values, length-insert,
}
use claude_code_aws_gateway.Endpoint.Pool.Select.{no_clients}
use claude_code_aws_gateway.Endpoint.Pool.{
  Endpoint, EndpointClient, EndpointPool, nanos_per_sec, affinity_ttl_secs, is_recent, usable,
  recall, ids_of, is_nil, update_affinity, cleanup_affinity, sticky_client, affine_client,
  select_endpoint,
}
use claude_code_aws_gateway.Prelude.{◌+◌, All, suc}
use claude_code_aws_gateway.Endpoint.Pool.Affinity.{
  AffinityCall, updates, cleans, affinity_step, affinity_run,
}

recalled :
    (later : ℕ) (ids : List ℕ) (clients : Assoc ℕ EndpointClient) (id now : ℕ) (c : EndpointClient)
    → (later - now) / nanos_per_sec < affinity_ttl_secs
    → Elem id ids
    → lookup id clients ≡ some c
    → usable c ≡ true
    → recall later ids clients (id, now) ≡ some c
recalled later ids clients id now c recent at loaded u =
    let known = any-Elem (λ j. j == id) ids id at (beq_self id) in ground (arith, known, u)

sticky_client-update_affinity :
    (later now : ℕ) (ids : List ℕ) (user : String) (id : ℕ) (pool : EndpointPool)
    → sticky_client later ids user (update_affinity now user id pool)
      ≡ recall later ids pool.clients (id, now)
unfolding sticky_client update_affinity
sticky_client-update_affinity later now ids user id pool = rw (lookup-insert, beq_self user) refl

select_affine :
    (now : ℕ) (team : List Endpoint) (user : Option String) (strategy : String)
    (pool : EndpointPool) (id : ℕ) (d c : EndpointClient)
    → Elem id (ids_of team)
    → lookup id pool.clients ≡ some d
    → affine_client now team user strategy pool ≡ some c
    → (select_endpoint now team user strategy pool).0 ≡ some c
unfolding select_endpoint
select_affine now [] user strategy pool id d c at loaded a = elim at [ ]
select_affine now (e ∷ team) user strategy pool id d c at loaded a =
    elim (Bool-cases (is_nil pool.clients)) [
      | inl empty ↦ ground (arith, no_clients id pool.clients empty)
      | inr some_client ↦ rw (some_client, a) refl
    ]

-- A call that is not for the user, and not later than the time.
abbrev pub IsBeside : String → ℕ → AffinityCall → Type 0
IsBeside user later (updates now other id) = (other == user) ≡ false
IsBeside user later (cleans now) = now ≤ later

module _ (later now : ℕ) (user : String) (id : ℕ) (start : EndpointPool)
    (recent : (later - now) / nanos_per_sec < affinity_ttl_secs) where
  -- The entry of the user is there, and so many calls more have room.
  record IsBound (left : ℕ) (pool : EndpointPool) : Type 0 where
    same_clients : pool.clients ≡ start.clients
    entry : lookup user pool.user_affinity ≡ some (id, now)
    unique : Unique pool.user_affinity
    room : length pool.user_affinity + left ≤ pool.max_affinity_entries

  step-IsBound :
      (call : AffinityCall) (left : ℕ) (pool : EndpointPool)
      → IsBeside user later call
      → IsBound (suc left) pool
      → IsBound left (affinity_step call pool)
  unfolding update_affinity cleanup_affinity
  step-IsBound (updates at other other_id) left pool beside b =
      let m = pool.user_affinity in
      let roomy : leb pool.max_affinity_entries (length m) ≡ false = ground (arith, b.room) in
      record {
        same_clients = b.same_clients;
        entry = rw (roomy, lookup-insert, beside) b.entry;
        unique = rw roomy (insert-Unique other (other_id, at) m b.unique);
        room = rw roomy (omega (arith, length-insert other (other_id, at) m, b.room));
      }
  step-IsBound (cleans at) left pool beside b =
      let m = pool.user_affinity in
      let fresh : is_recent at now ≡ true = ground (arith, recent, beside) in
      record {
        same_clients = b.same_clients;
        entry =
            lookup-retain_values (λ (v : ℕ × ℕ). is_recent at v.1) user m b.unique
            ∙ rw (b.entry, fresh) refl;
        unique = retain_values-Unique (λ (v : ℕ × ℕ). is_recent at v.1) m b.unique;
        room =
            unfold retain_values in
            omega
              (arith, length-retain-le (λ (kv : String × (ℕ × ℕ)). is_recent at kv.1.1) m, b.room);
      }

  run-IsBound :
      (calls : List AffinityCall) (pool : EndpointPool)
      → All (IsBeside user later) calls
      → IsBound (length calls) pool
      → IsBound 0 (affinity_run calls pool)
  unfolding affinity_run
  run-IsBound [] pool beside b = b
  run-IsBound (call ∷ calls) pool beside b = run-IsBound calls (affinity_step call pool) beside.1 (
      step-IsBound call (length calls) pool beside.0 (record {
        same_clients = b.same_clients;
        entry = b.entry;
        unique = b.unique;
        room = omega (arith, b.room);
      }))

update_affinity-IsBound :
    (later now : ℕ) (user : String) (id left : ℕ) (pool : EndpointPool)
    (recent : (later - now) / nanos_per_sec < affinity_ttl_secs)
    → Unique pool.user_affinity
    → length pool.user_affinity + left < pool.max_affinity_entries
    → IsBound later now user id pool recent left (update_affinity now user id pool)
unfolding update_affinity
update_affinity-IsBound later now user id left pool recent u room =
    let m = pool.user_affinity in
    let roomy : leb pool.max_affinity_entries (length m) ≡ false = ground (arith, room) in
    record {
      same_clients = refl;
      entry = rw (roomy, lookup-insert, beq_self user) refl;
      unique = rw roomy (insert-Unique user (id, now) m u);
      room = rw roomy (omega (arith, length-insert user (id, now) m, room));
    }

-- Under the strategy "sticky_user", a user whose last request went to an endpoint is sent there
-- again for half an hour, while the endpoint is loaded, usable and one of the team's: whatever
-- updates for other users and cleanups are made in between, if the map has room for all of them, so
-- that none of them evicts an entry.
pub select-update_affinity :
    (now later : ℕ) (user : String) (id : ℕ) (team : List Endpoint) (pool : EndpointPool)
    (c : EndpointClient) (calls : List AffinityCall)
    → (later - now) / nanos_per_sec < affinity_ttl_secs
    → Elem id (ids_of team)
    → lookup id pool.clients ≡ some c
    → usable c ≡ true
    → Unique pool.user_affinity
    → length pool.user_affinity + length calls < pool.max_affinity_entries
    → All (IsBeside user later) calls
    → (select_endpoint later team
        (some user)
        "sticky_user"
        (affinity_run calls (update_affinity now user id pool))).0
      ≡ some c
unfolding sticky_client
select-update_affinity now later user id team pool c calls recent at loaded u unique room beside =
    let p = affinity_run calls (update_affinity now user id pool) in
    let b =
      run-IsBound later now user id pool recent calls (update_affinity now user id pool) beside
        (update_affinity-IsBound later now user id (length calls) pool recent unique room) in
    let there_still : lookup id p.clients ≡ some c = rw b.same_clients loaded in
    select_affine later team (some user) "sticky_user" p id c c at there_still
      (rw b.entry (recalled later (ids_of team) p.clients id now c recent at there_still u))
