-- ===== src/Endpoint/Pool/Affinity.antt =====
-- The affinities of src/endpoint/mod.rs: how many are kept, which one makes room for another, and what
-- a cleanup changes.
use claude_code_aws_gateway.Prelude.{
  ℕ, ◌-◌, ◌≤◌, ◌≡◌, ◌≢◌, ◌⊎◌, inl, inr, refl, false, not, ◌&&◌, Option, none, some, List, [], ◌∷◌,
  String, arith, leb, length, Bool-cases, Option-cases, retain, ◌==◌, nat_eq, string_eq, beq_self,
  if◌then◌else◌, length-retain-le,
}
use claude_code_aws_gateway.Prelude.Assoc.{
  Assoc, lookup, insert, retain_values, filter_option, Unique, insert-Unique, remove-Unique,
  retain_values-Unique, lookup-insert, lookup-remove, lookup-retain_values, length-insert,
  length-insert_mem, length-remove_mem,
}
use claude_code_aws_gateway.Endpoint.Pool.{
  Endpoint, EndpointClient, EndpointPool, is_recent, usable, bind, recall, ids_of, is_nil, is_some,
  older, oldest, evict_oldest, update_affinity, cleanup_affinity, sticky_client, affine_client,
  select_endpoint, route, round_robin, candidates,
}

pub oldest-lookup :
    (m : Assoc String (ℕ × ℕ)) (e : String × (ℕ × ℕ))
    → Unique m
    → oldest m ≡ some e
    → lookup e.0 m ≡ some e.1
unfolding oldest lookup Unique
oldest-lookup [] e u h = absurd (ground arith)
oldest-lookup ((k, v) ∷ m) e u h = elim (Option-cases (oldest m)) [
  | inl none_left ↦ ground (arith, beq_self k)
  | inr (f, found) ↦
      let at = oldest-lookup m f u.1 found in
      ground (arith, at, beq_self k, string_eq.beq_iff k f.0)
]

older-none : (e : String × (ℕ × ℕ)) (o : Option (String × (ℕ × ℕ))) → older e o ≢ none
older-none e none h = ground arith
older-none e (some f) h = ground arith

oldest-none : (m : Assoc String (ℕ × ℕ)) → oldest m ≡ none → m ≡ []
unfolding oldest
oldest-none [] h = refl
oldest-none (e ∷ m) h = absurd (older-none e (oldest m) (ground arith))

oldest-le :
    (m : Assoc String (ℕ × ℕ)) (e : String × (ℕ × ℕ)) (k : String) (v : ℕ × ℕ)
    → oldest m ≡ some e
    → lookup k m ≡ some v
    → e.1.1 ≤ v.1
unfolding oldest lookup
oldest-le [] e k v h l = absurd (ground arith)
oldest-le ((j, w) ∷ m) e k v h l = elim (Option-cases (oldest m)) [
  | inl none_left ↦ ground (arith, oldest-none m none_left)
  | inr (f, found) ↦ ground (arith, oldest-le m f k v found)
]

-- A call of the pool that touches the affinities, with its time.
pub data AffinityCall : Type 0 where
  updates : ℕ → String → ℕ → AffinityCall
  cleans : ℕ → AffinityCall

abbrev pub affinity_step : AffinityCall → EndpointPool → EndpointPool
affinity_step (updates now user id) pool = update_affinity now user id pool
affinity_step (cleans now) pool = cleanup_affinity now pool

unfoldable pub affinity_run : List AffinityCall → EndpointPool → EndpointPool
affinity_run [] pool = pool
affinity_run (call ∷ calls) pool = affinity_run calls (affinity_step call pool)

-- One entry for each user, and no more than the maximum.
pub record Bounded (pool : EndpointPool) : Type 0 where
  pub unique : Unique pool.user_affinity
  pub bound : length pool.user_affinity ≤ pool.max_affinity_entries
  pub room : 1 ≤ pool.max_affinity_entries

evict_oldest-Unique : (m : Assoc String (ℕ × ℕ)) → Unique m → Unique (evict_oldest m)
evict_oldest-Unique m u = elim (Option-cases (oldest m)) [
  | inl e ↦ rw (e, evict_oldest) u
  | inr (f, e) ↦ rw (e, evict_oldest) (remove-Unique f.0 m u)
]

length-evict_oldest : (m : Assoc String (ℕ × ℕ)) → Unique m → length (evict_oldest m) ≤ length m - 1
length-evict_oldest m u = elim (Option-cases (oldest m)) [
  | inl e ↦ rw (e, evict_oldest) (let empty = oldest-none m e in rw empty (omega arith))
  | inr (f, e) ↦
      rw (e, evict_oldest) (omega (arith, length-remove_mem f.0 m f.1 (oldest-lookup m f u e)))
]

-- The map that an update inserts into.
abbrev room_for : String → EndpointPool → Assoc String (ℕ × ℕ)
room_for user pool =
    let affinity = pool.user_affinity in
    if leb pool.max_affinity_entries (length affinity) && not (is_some (lookup user affinity))
    then evict_oldest affinity
    else affinity

inserted-le :
    (user : String) (v : ℕ × ℕ) (pool : EndpointPool)
    → Bounded pool
    → length (insert user v (room_for user pool)) ≤ pool.max_affinity_entries
inserted-le user v pool b =
    let m = pool.user_affinity in
    elim (Option-cases (lookup user m)) [
      | inl new_user ↦ ground (
        arith,
        length-insert user v m,
        length-insert user v (evict_oldest m),
        length-evict_oldest m b.unique,
        b.bound,
        b.room,
      )
      | inr (w, known) ↦ ground (arith, length-insert_mem user v m w known, b.bound)
    ]

update_affinity-Bounded :
    (now : ℕ) (user : String) (id : ℕ) (pool : EndpointPool)
    → Bounded pool
    → Bounded (update_affinity now user id pool)
unfolding update_affinity
update_affinity-Bounded now user id pool b = record {
  unique =
      insert-Unique user (id, now) (room_for user pool)
        (ground (arith, evict_oldest-Unique pool.user_affinity b.unique, b.unique));
  bound = inserted-le user (id, now) pool b;
  room = b.room;
}

cleanup_affinity-Bounded :
    (now : ℕ) (pool : EndpointPool) → Bounded pool → Bounded (cleanup_affinity now pool)
unfolding cleanup_affinity
cleanup_affinity-Bounded now pool b = record {
  unique = retain_values-Unique _ pool.user_affinity b.unique;
  bound =
      unfold retain_values in
      omega (
        arith,
        length-retain-le (λ (kv : String × (ℕ × ℕ)). is_recent now kv.1.1) pool.user_affinity,
        b.bound,
      );
  room = b.room;
}

affinity_step-Bounded :
    (call : AffinityCall) (pool : EndpointPool) → Bounded pool → Bounded (affinity_step call pool)
affinity_step-Bounded (updates now user id) pool b = update_affinity-Bounded now user id pool b
affinity_step-Bounded (cleans now) pool b = cleanup_affinity-Bounded now pool b

-- From a pool that has room for at least one affinity, whatever calls are made, each user has one
-- entry at most and the entries never exceed the pool's maximum.
pub affinity_run-Bounded :
    (calls : List AffinityCall) (pool : EndpointPool)
    → Bounded pool
    → Bounded (affinity_run calls pool)
unfolding affinity_run
affinity_run-Bounded [] pool b = b
affinity_run-Bounded (call ∷ calls) pool b =
    affinity_run-Bounded calls _ (affinity_step-Bounded call pool b)

-- An update changes the affinity of no other user, except that it may evict one that was used
-- longest ago, and this only when the map is full and the user had no entry.
pub update_affinity-others :
    (now : ℕ) (user other : String) (id : ℕ) (pool : EndpointPool)
    → Unique pool.user_affinity
    → user ≢ other
    → let after = (update_affinity now user id pool).user_affinity in
      (lookup other after ≡ lookup other pool.user_affinity)
      ⊎ ((v : ℕ × ℕ) × (lookup other pool.user_affinity ≡ some v)
          × (pool.max_affinity_entries ≤ length pool.user_affinity)
          × (lookup user pool.user_affinity ≡ none)
          × ((third : String) (w : ℕ × ℕ) → lookup third pool.user_affinity ≡ some w → v.1 ≤ w.1))
unfolding update_affinity
update_affinity-others now user other id pool u distinct =
    let m = pool.user_affinity in
    elim (Bool-cases (leb pool.max_affinity_entries (length m) && not (is_some (lookup user m)))) [
      | inr roomy ↦ inl (rw (roomy, lookup-insert, not_same) refl)
      | inl full ↦ elim (Option-cases (oldest m)) [
        | inl e ↦ inl (rw (full, lookup-insert, not_same, e, evict_oldest) refl)
        | inr (f, e) ↦ elim (Bool-cases (f.0 == other)) [
          | inr kept ↦
              inl (rw (full, lookup-insert, not_same, e, evict_oldest, lookup-remove, kept) refl)
          | inl gone ↦ inr (
            f.1,
            ground (arith, oldest-lookup m f u e, string_eq.beq_iff f.0 other),
            ground arith,
            ground arith,
            λ third w l. oldest-le m f third w e l,
          )
        ]
      ]
    ]
  where
    not_same : (user == other) ≡ false
    not_same = ground (arith, string_eq.beq_iff user other)

recall-filter :
    (now later : ℕ) (ids : List ℕ) (clients : Assoc ℕ EndpointClient) (o : Option (ℕ × ℕ))
    → now ≤ later
    → bind (filter_option (λ (v : ℕ × ℕ). is_recent now v.1) o) (recall later ids clients)
      ≡ bind o (recall later ids clients)
recall-filter now later ids clients none h = refl
recall-filter now later ids clients (some (id, at)) h = elim (Bool-cases (is_recent now at)) [
  | inl kept ↦ rw kept refl
  | inr dropped ↦ let also : is_recent later at ≡ false = ground arith in rw (dropped, also) refl
]

sticky_client-cleanup_affinity :
    (now later : ℕ) (ids : List ℕ) (user : String) (pool : EndpointPool)
    → Unique pool.user_affinity
    → now ≤ later
    → sticky_client later ids user (cleanup_affinity now pool) ≡ sticky_client later ids user pool
unfolding sticky_client cleanup_affinity
sticky_client-cleanup_affinity now later ids user pool u h =
    rw (lookup-retain_values (λ (v : ℕ × ℕ). is_recent now v.1) user pool.user_affinity u)
      (recall-filter now later ids pool.clients (lookup user pool.user_affinity) h)

affine_client-cleanup_affinity :
    (now later : ℕ) (team : List Endpoint) (user : Option String) (strategy : String)
    (pool : EndpointPool)
    → Unique pool.user_affinity
    → now ≤ later
    → affine_client later team user strategy (cleanup_affinity now pool)
      ≡ affine_client later team user strategy pool
affine_client-cleanup_affinity now later team none strategy pool u h = refl
affine_client-cleanup_affinity now later team (some identity) strategy pool u h =
    rw (sticky_client-cleanup_affinity now later (ids_of team) identity pool u h) refl

round_robin-cleanup :
    (now : ℕ) (cs : List EndpointClient) (pool : EndpointPool)
    → (round_robin cs (cleanup_affinity now pool)).0 ≡ (round_robin cs pool).0
unfolding cleanup_affinity
round_robin-cleanup now [] pool = refl
round_robin-cleanup now (c ∷ cs) pool = refl

route-cleanup :
    (now : ℕ) (team : List Endpoint) (strategy : String) (pool : EndpointPool)
    → (route strategy (candidates team (cleanup_affinity now pool)) (cleanup_affinity now pool)).0
      ≡ (route strategy (candidates team pool) pool).0
unfolding cleanup_affinity candidates
route-cleanup now team strategy pool = elim (Bool-cases (strategy == "round_robin")) [
  | inl e ↦ rw e (round_robin-cleanup now (retain usable (candidates team pool)) pool)
  | inr e ↦ rw e refl
]

-- Dropping the expired affinities changes no later selection.
pub cleanup_affinity_invisible :
    (now later : ℕ) (team : List Endpoint) (user : Option String) (strategy : String)
    (pool : EndpointPool)
    → Unique pool.user_affinity
    → now ≤ later
    → (select_endpoint later team user strategy (cleanup_affinity now pool)).0
      ≡ (select_endpoint later team user strategy pool).0
unfolding select_endpoint sticky_client cleanup_affinity
cleanup_affinity_invisible now later team user strategy pool u h =
    elim (Bool-cases (is_nil pool.clients)) [
      | inl e ↦ rw e refl
      | inr e ↦ elim (Bool-cases (is_nil team)) [
        | inl t ↦ rw (e, t) refl
        | inr t ↦ elim (Option-cases (affine_client later team user strategy pool)) [
          | inl a ↦
              rw (e, t, affine_client-cleanup_affinity now later team user strategy pool u h, a)
                (route-cleanup now team strategy pool)
          | inr (c, a) ↦
              rw (e, t, affine_client-cleanup_affinity now later team user strategy pool u h, a)
                refl
        ]
      ]
    ]
