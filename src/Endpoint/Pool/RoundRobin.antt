-- ===== src/Endpoint/Pool/RoundRobin.antt =====
-- The strategy "round_robin" of src/endpoint/mod.rs: the turns that successive calls take. The
-- counter wraps at 2^64, which the calls considered here do not reach.
use native.Mathlib.Nat.{mod-add-mod, add-mod_right, mod-eq_of_lt, mod-lt}
use claude_code_aws_gateway.Prelude.{
  ℕ, zero, suc, ◌+◌, ◌-◌, ◌%◌, ◌≤◌, ◌<◌, ◌≡◌, refl, sym, ap, ◌∙◌, true, Option, none, some, List,
  [], ◌∷◌, String, arith, length, retain, get_elem?, Bool-cases, leb, inl, inr,
}
use claude_code_aws_gateway.Prelude.Elem.{Elem, here, there}
use claude_code_aws_gateway.Endpoint.Pool.Select.{no_clients}
use claude_code_aws_gateway.Prelude.Assoc.{Assoc}
use claude_code_aws_gateway.Endpoint.Pool.{
  Endpoint, EndpointClient, EndpointPool, usable, usize_mod, is_nil, ids_of, candidates,
  affine_client, round_robin, select_endpoint, clients_of,
}

abbrev pub strategy : String
strategy = "round_robin"

-- The usable clients, in the order of the team's priority.
abbrev pub turns : List Endpoint → EndpointPool → List EndpointClient
turns team pool = retain usable (candidates team pool)

-- The pool after that many requests of a team.
abbrev pub after : ℕ → ℕ → List Endpoint → Option String → EndpointPool → EndpointPool
after zero now team user pool = pool
after (suc n) now team user pool =
    (select_endpoint now team user strategy (after n now team user pool)).1

not_sticky :
    (now : ℕ) (team : List Endpoint) (user : Option String) (pool : EndpointPool)
    → affine_client now team user strategy pool ≡ none
not_sticky now team none pool = refl
not_sticky now team (some identity) pool = refl

no_clients_of :
    (ids : List ℕ) (m : Assoc ℕ EndpointClient) → is_nil m ≡ true → clients_of ids m ≡ []
unfolding clients_of
no_clients_of [] m h = refl
no_clients_of (id ∷ ids) m h = ground (arith, no_clients id m h, no_clients_of ids m h)

no_team : (team : List Endpoint) (pool : EndpointPool) → is_nil team ≡ true → turns team pool ≡ []
unfolding candidates clients_of
no_team [] pool h = refl
no_team (e ∷ team) pool h = absurd (ground arith)

-- A pool with nothing loaded has no turns.
no_turns :
    (team : List Endpoint) (pool : EndpointPool) → is_nil pool.clients ≡ true → turns team pool ≡ []
no_turns team pool h =
    let none_loaded = no_clients_of (ids_of team) pool.clients h in
    unfold candidates in rw none_loaded refl

select_turn :
    (now : ℕ) (team : List Endpoint) (user : Option String) (pool : EndpointPool)
    → 0 < length (turns team pool)
    → select_endpoint now team user strategy pool ≡ round_robin (turns team pool) pool
unfolding select_endpoint
select_turn now team user pool h = elim (Bool-cases (is_nil pool.clients)) [
  | inl e ↦ absurd (let nothing = no_turns team pool e in ground arith)
  | inr e ↦ elim (Bool-cases (is_nil team)) [
    | inl t ↦ absurd (let nothing = no_team team pool t in ground arith)
    | inr t ↦ rw (e, t, not_sticky now team user pool) refl
  ]
]

record Turned (n : ℕ) (team : List Endpoint) (start pool : EndpointPool) : Type 0 where
  same_clients : pool.clients ≡ start.clients
  counter : pool.round_robin_counter ≡ start.round_robin_counter + n

round_robin-Turned :
    (n : ℕ) (team : List Endpoint) (start pool : EndpointPool) (hs : List EndpointClient)
    → 0 < length hs
    → start.round_robin_counter + suc n < usize_mod
    → Turned n team start pool
    → Turned (suc n) team start (round_robin hs pool).1
round_robin-Turned n team start pool [] h small t = absurd (omega arith)
round_robin-Turned n team start pool (c ∷ hs) h small t = record {
  same_clients = t.same_clients;
  counter = let at = t.counter in ground arith;
}

same_turns :
    (n : ℕ) (team : List Endpoint) (start pool : EndpointPool)
    → Turned n team start pool
    → turns team pool ≡ turns team start
unfolding candidates
same_turns n team start pool t = rw t.same_clients refl

after-Turned :
    (n now : ℕ) (team : List Endpoint) (user : Option String) (pool : EndpointPool)
    → 0 < length (turns team pool)
    → pool.round_robin_counter + n < usize_mod
    → Turned n team pool (after n now team user pool)
after-Turned zero now team user pool h small = record { same_clients = refl; counter = omega arith }
after-Turned (suc n) now team user pool h small =
    let t = after-Turned n now team user pool h (omega arith) in
    let p = after n now team user pool in
    let some_turn : 0 < length (turns team p) = rw (same_turns n team pool p t) h in
    rw (after, select_turn now team user p some_turn)
      (round_robin-Turned n team pool p (turns team p) some_turn small t)

round_robin-turn :
    (hs : List EndpointClient) (pool : EndpointPool)
    → 0 < length hs
    → (round_robin hs pool).0 ≡ get_elem? hs (pool.round_robin_counter % length hs)
round_robin-turn [] pool h = absurd (omega arith)
round_robin-turn (c ∷ hs) pool h = refl

-- Request number n is sent to the usable client at the place that the counter has come to, modulo
-- their number.
pub select_after :
    (n now : ℕ) (team : List Endpoint) (user : Option String) (pool : EndpointPool)
    → 0 < length (turns team pool)
    → pool.round_robin_counter + n < usize_mod
    → (select_endpoint now team user strategy (after n now team user pool)).0
      ≡ get_elem? (turns team pool) ((pool.round_robin_counter + n) % length (turns team pool))
select_after n now team user pool h small =
    let t = after-Turned n now team user pool h small in
    let p = after n now team user pool in
    let same = same_turns n team pool p t in
    let some_turn : 0 < length (turns team p) = rw same h in
    rw (select_turn now team user p some_turn) (
      round_robin-turn (turns team p) p some_turn
      ∙ ap (λ i. get_elem? (turns team p) (i % length (turns team p))) t.counter
      ∙ ap (λ hs. get_elem? hs ((pool.round_robin_counter + n) % length hs)) same)

-- From any count, a counter reaches each residue within that many steps.
residue_reached : (k len j : ℕ) → j < len → (n : ℕ) × (n < len) × ((k + n) % len ≡ j)
residue_reached k len j h = elim (Bool-cases (leb (k % len) j)) [
  | inl e ↦
      let le : k % len ≤ j = ground arith in
      (
        j - k % len,
        omega arith,
        sym (mod-add-mod k len (j - k % len)) ∙ same (omega arith) ∙ mod-eq_of_lt h,
      )
  | inr e ↦
      let gt : j < k % len = ground arith in
      let top = mod-lt k {m = len} (omega arith) in
      (
        j + len - k % len,
        omega arith,
        sym (mod-add-mod k len (j + len - k % len))
            ∙ same (omega arith)
            ∙ add-mod_right j len
            ∙ mod-eq_of_lt h,
      )
]
  where
    same : {a b : ℕ} → a ≡ b → a % len ≡ b % len
    same e = ap (λ x. x % len) e

Elem-get_elem? {ℓ} :
    {A : Type ℓ} (xs : List A) (x : A)
    → Elem x xs
    → (i : ℕ) × (i < length xs) × (get_elem? xs i ≡ some x)
Elem-get_elem? [] x m = elim m [ ]
Elem-get_elem? (y ∷ xs) x here = (0, omega arith, refl)
Elem-get_elem? (y ∷ xs) x (there m) =
    let (i, h, e) = Elem-get_elem? xs x m in (suc i, omega arith, e)

-- Under the strategy "round_robin", among as many successive selections as there are usable clients,
-- each of them is selected in one. The selections are for one team and user, nothing happens to the
-- pool between them, and the counter does not come to 2^64 within them.
pub select_fair :
    (now : ℕ) (team : List Endpoint) (user : Option String) (pool : EndpointPool)
    (c : EndpointClient)
    → Elem c (turns team pool)
    → pool.round_robin_counter + length (turns team pool) < usize_mod
    → (n : ℕ) × (n < length (turns team pool))
      × ((select_endpoint now team user strategy (after n now team user pool)).0 ≡ some c)
select_fair now team user pool c m small =
    let (j, short, at) = Elem-get_elem? (turns team pool) c m in
    let (n, soon, e) =
      residue_reached pool.round_robin_counter (length (turns team pool)) j short in
    (
      n,
      soon,
      select_after n now team user pool (omega arith) (omega arith)
          ∙ ap (λ i. get_elem? (turns team pool) i) e
          ∙ at,
    )
