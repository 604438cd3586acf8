-- ===== src/Endpoint/Pool/Select.antt =====
-- What `select_endpoint` and `get_fallback_endpoints` of src/endpoint/mod.rs offer.
use mathlib.Core.Logic.{◌↔◌}
use claude_code_aws_gateway.Prelude.{
  ℕ, zero, suc, ◌%◌, ◌<◌, ◌≡◌, ◌≢◌, inl, inr, refl, true, false, not, ◌&&◌, Option, none, some,
  List, [], ◌∷◌, arith, length, retain, any, get_elem?, find-holds, Bool-cases, Option-cases, ◌==◌,
  nat_eq, String, string_eq,
}
use claude_code_aws_gateway.Prelude.Elem.{
  Elem, here, there, find-Elem, find-none, any-Elem, retain-Elem, Elem-retain,
}
use claude_code_aws_gateway.Prelude.Assoc.{Assoc, lookup}
use claude_code_aws_gateway.Endpoint.Pool.{
  Endpoint, EndpointClient, EndpointPool, usable, bind, keep_if, is_recent, recall, ids_of, is_nil,
  priority, candidates, sticky_client, affine_client, round_robin, route, default_client,
  select_endpoint, get_fallback_endpoints,
}
use claude_code_aws_gateway.Endpoint.Pool.Candidates.{
  Loaded, Elem-candidates, candidates-Elem, Elem-clients_of, clients_of-Elem, Elem-sort_by_key,
  sort_by_key-Elem,
}

keep_if-some :
    (o : Option EndpointClient) (c : EndpointClient)
    → bind o (keep_if usable) ≡ some c
    → (o ≡ some c) × (usable c ≡ true)
keep_if-some none c h = absurd (ground arith)
keep_if-some (some d) c h = ground arith

keep_if-none :
    (o : Option EndpointClient) (c : EndpointClient)
    → bind o (keep_if usable) ≡ none
    → o ≡ some c
    → usable c ≡ false
keep_if-none none c h e = absurd (ground arith)
keep_if-none (some d) c h e = ground arith

any_eq-Elem : (id : ℕ) (ids : List ℕ) → any (λ j. j == id) ids ≡ true → Elem id ids
any_eq-Elem id [] h = absurd (ground arith)
any_eq-Elem id (j ∷ ids) h = elim (Bool-cases (j == id)) [
  | inl e ↦ let same : j ≡ id = ground arith in rw same here
  | inr e ↦ there (any_eq-Elem id ids (ground arith))
]

-- An endpoint that a request of this team may use: a loaded client of one of the team's endpoints,
-- or, for a team without any, of the default endpoint.
abbrev pub IsOffered : List Endpoint → EndpointPool → EndpointClient → Type 0
IsOffered [] pool c =
    (id : ℕ) × (pool.default_endpoint_id ≡ some id) × (lookup id pool.clients ≡ some c)
IsOffered (e ∷ team) pool c = Loaded (ids_of (e ∷ team)) pool.clients c

recall-some :
    (now : ℕ) (ids : List ℕ) (m : Assoc ℕ EndpointClient) (v : ℕ × ℕ) (c : EndpointClient)
    → recall now ids m v ≡ some c
    → Loaded ids m c × (usable c ≡ true)
recall-some now ids m (ep_id, last_seen) c h =
    elim (Bool-cases (is_recent now last_seen && any (λ id. id == ep_id) ids)) [
      | inl e ↦
          let (l, u) = keep_if-some (lookup ep_id m) c (rw e at h) in
          ((ep_id, any_eq-Elem ep_id ids (ground arith), l), u)
      | inr e ↦ let h' : ◌≡◌ {A = Option EndpointClient} none (some c) = rw e at h in absurd (cc)
    ]

sticky-some :
    (now : ℕ) (ids : List ℕ) (identity : String) (pool : EndpointPool) (c : EndpointClient)
    → sticky_client now ids identity pool ≡ some c
    → Loaded ids pool.clients c × (usable c ≡ true)
unfolding sticky_client
sticky-some now ids identity pool c h = elim (Option-cases (lookup identity pool.user_affinity)) [
  | inl e ↦ absurd (ground arith)
  | inr (v, e) ↦ recall-some now ids pool.clients v c (rw (e, sticky_client, bind) at h)
]

affine-some :
    (now : ℕ) (team : List Endpoint) (user : Option String) (strategy : String)
    (pool : EndpointPool) (c : EndpointClient)
    → affine_client now team user strategy pool ≡ some c
    → Loaded (ids_of team) pool.clients c × (usable c ≡ true)
affine-some now team none strategy pool c h = absurd (ground arith)
affine-some now team (some identity) strategy pool c h =
    sticky-some now (ids_of team) identity pool c (ground arith)

get_elem?-Elem {ℓ} :
    {A : Type ℓ} (xs : List A) (i : ℕ) (x : A) → get_elem? xs i ≡ some x → Elem x xs
get_elem?-Elem [] i x h = absurd (cc)
get_elem?-Elem (y ∷ xs) zero x h = let same : y ≡ x = ground arith in rw same here
get_elem?-Elem (y ∷ xs) (suc i) x h = there (get_elem?-Elem xs i x h)

get_elem?_total {ℓ} : {A : Type ℓ} (xs : List A) (i : ℕ) → i < length xs → get_elem? xs i ≢ none
get_elem?_total [] i h e = absurd (omega arith)
get_elem?_total (y ∷ xs) zero h e = cc
get_elem?_total (y ∷ xs) (suc i) h e = get_elem?_total xs i (omega arith) e

round_robin-some :
    (hs : List EndpointClient) (pool : EndpointPool) (c : EndpointClient)
    → (round_robin hs pool).0 ≡ some c
    → Elem c hs
round_robin-some [] pool c h = absurd (ground arith)
round_robin-some (d ∷ hs) pool c h =
    get_elem?-Elem (d ∷ hs) (pool.round_robin_counter % length (d ∷ hs)) c h

round_robin-none :
    (hs : List EndpointClient) (pool : EndpointPool) → (round_robin hs pool).0 ≡ none → hs ≡ []
round_robin-none [] pool h = refl
round_robin-none (d ∷ hs) pool h =
    absurd (get_elem?_total (d ∷ hs) (pool.round_robin_counter % length (d ∷ hs)) (omega arith) h)

route-some :
    (strategy : String) (cands : List EndpointClient) (pool : EndpointPool) (c : EndpointClient)
    → (route strategy cands pool).0 ≡ some c
    → Elem c cands × (usable c ≡ true)
route-some strategy cands pool c h = elim (Bool-cases (strategy == "round_robin")) [
  | inl e ↦
      retain-Elem usable cands c (round_robin-some (retain usable cands) pool c (ground arith))
  | inr e ↦ (find-Elem usable cands c (ground arith), find-holds usable cands c (ground arith))
]

route-none :
    (strategy : String) (cands : List EndpointClient) (pool : EndpointPool) (c : EndpointClient)
    → (route strategy cands pool).0 ≡ none
    → Elem c cands
    → usable c ≡ false
route-none strategy cands pool c h m = elim (Bool-cases (usable c)) [
  | inr u ↦ u
  | inl u ↦ elim (Bool-cases (strategy == "round_robin")) [
    | inl e ↦
        let empty = round_robin-none (retain usable cands) pool (ground arith) in
        elim (nothing (retain usable cands) empty (Elem-retain usable cands c m u)) [ ]
    | inr e ↦ ground (arith, any-Elem usable cands c m u, find-none usable cands)
  ]
]
  where
    nothing : (hs : List EndpointClient) → hs ≡ [] → Elem c hs → ⊥
    nothing [] e m = elim m [ ]
    nothing (d ∷ hs) e m = cc

default-some :
    (pool : EndpointPool) (c : EndpointClient)
    → default_client pool ≡ some c
    → IsOffered [] pool c × (usable c ≡ true)
unfolding default_client
default-some pool c h = elim (Option-cases pool.default_endpoint_id) [
  | inl e ↦ absurd (ground arith)
  | inr (id, e) ↦
      let (l, u) = keep_if-some (lookup id pool.clients) c (ground arith) in ((id, e, l), u)
]

-- Whatever the strategy and the user, the selected endpoint is enabled and healthy, and is one that
-- the team may use.
pub select-IsOffered :
    (now : ℕ) (team : List Endpoint) (user : Option String) (strategy : String)
    (pool : EndpointPool) (c : EndpointClient)
    → (select_endpoint now team user strategy pool).0 ≡ some c
    → IsOffered team pool c × (usable c ≡ true)
unfolding select_endpoint
select-IsOffered now [] user strategy pool c h = default-some pool c (ground arith)
select-IsOffered now (e ∷ team) user strategy pool c h =
    elim (Option-cases (affine_client now (e ∷ team) user strategy pool)) [
      | inr (d, a) ↦ affine-some now (e ∷ team) user strategy pool c (ground arith)
      | inl a ↦
          let (m, u) = route-some strategy (candidates (e ∷ team) pool) pool c (ground arith) in
          (Elem-candidates c (e ∷ team) pool m, u)
    ]

default-none :
    (pool : EndpointPool) (c : EndpointClient)
    → default_client pool ≡ none
    → IsOffered [] pool c
    → usable c ≡ false
unfolding default_client
default-none pool c h (id, e, l) =
    keep_if-none (lookup id pool.clients) c (rw (e, default_client, bind) at h) l

pub no_clients : (id : ℕ) (m : Assoc ℕ EndpointClient) → is_nil m ≡ true → lookup id m ≡ none
unfolding lookup
no_clients id [] h = refl
no_clients id (x ∷ m) h = cc

-- If nothing is selected, every endpoint that the team may use is disabled or unhealthy.
pub select-none :
    (now : ℕ) (team : List Endpoint) (user : Option String) (strategy : String)
    (pool : EndpointPool) (c : EndpointClient)
    → (select_endpoint now team user strategy pool).0 ≡ none
    → IsOffered team pool c
    → usable c ≡ false
unfolding select_endpoint
select-none now [] user strategy pool c h o = elim (Bool-cases (is_nil pool.clients)) [
  | inl n ↦ ground (arith, o.2, no_clients o.0 pool.clients n)
  | inr n ↦ default-none pool c (ground arith) o
]
select-none now (e ∷ team) user strategy pool c h o = elim (Bool-cases (is_nil pool.clients)) [
  | inl n ↦ ground (arith, o.2, no_clients o.0 pool.clients n)
  | inr n ↦ elim (Option-cases (affine_client now (e ∷ team) user strategy pool)) [
    | inr (d, a) ↦ absurd (ground arith)
    | inl a ↦
        route-none strategy (candidates (e ∷ team) pool) pool c (ground arith)
          (candidates-Elem c (e ∷ team) pool o)
  ]
]

Elem-others :
    (id primary : ℕ) (ids : List ℕ)
    → Elem id (retain (λ j. not (j == primary)) ids)
    → Elem id ids × (id ≢ primary)
Elem-others id primary ids m =
    let (at, other) = retain-Elem (λ j. not (j == primary)) ids id m in (at, λ e. ground arith)

not_beq : (id primary : ℕ) → id ≢ primary → not (id == primary) ≡ true
not_beq id primary other = elim (Bool-cases (id == primary)) [
  | inl e ↦ absurd (other (ground arith))
  | inr e ↦ ground arith
]

-- The fallbacks of a team are exactly the enabled and healthy clients that are loaded for one of its
-- endpoints other than the primary; a team without endpoints has none.
pub fallback_iff :
    (primary : ℕ) (team : List Endpoint) (pool : EndpointPool) (c : EndpointClient)
    → Elem c (get_fallback_endpoints primary team pool) ↔ (
        (id : ℕ) × Elem id (ids_of team)
        × (id ≢ primary)
        × (lookup id pool.clients ≡ some c)
        × (usable c ≡ true))
unfolding get_fallback_endpoints
fallback_iff primary [] pool c = (λ m. elim m [ ], λ (id, at, a, b, d). elim at [ ])
fallback_iff primary (e ∷ team) pool c = (
  λ m.
      let others = retain (λ j. not (j == primary)) (ids_of (e ∷ team)) in
      let (k, u) = retain-Elem usable _ c (Elem-sort_by_key (priority (e ∷ team)) c _ m) in
      let (id, at, l) = Elem-clients_of c others pool.clients k in
      let (at', other) = Elem-others id primary (ids_of (e ∷ team)) at in (id, at', other, l, u),
  λ (id, at, other, l, u). sort_by_key-Elem (priority (e ∷ team)) c _ (
      Elem-retain usable _ c
        (clients_of-Elem c id _ pool.clients
          (Elem-retain (λ j. not (j == primary)) _ id at (not_beq id primary other)) l)
        u),
)
