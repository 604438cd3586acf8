-- ===== src/Endpoint/Pool/Candidates.antt =====
-- The candidate list of src/endpoint/mod.rs: sorting keeps its members, and each is the loaded client
-- of an endpoint of the team.
use claude_code_aws_gateway.Prelude.{
  ℕ, ◌≤◌, ◌≡◌, All, All-map, leb→le, arith, inl, inr, ap, ◌∙◌, some, List, [], ◌∷◌, leb, Bool-cases,
  Option-cases, nat_eq,
}
use claude_code_aws_gateway.Prelude.Elem.{Elem, here, there, Elem-cases}
use claude_code_aws_gateway.Prelude.Assoc.{Assoc, lookup}
use claude_code_aws_gateway.Endpoint.Pool.{
  Endpoint, EndpointClient, EndpointPool, clients_of, priority, insert_by, sort_by_key, ids_of,
  candidates,
}

module _ (key : EndpointClient → ℕ) where
  Elem-insert_by :
      (x c : EndpointClient) (cs : List EndpointClient)
      → Elem x (insert_by key c cs)
      → Elem x (c ∷ cs)
  Elem-insert_by x c [] m = m
  Elem-insert_by x c (d ∷ ds) m = elim (Bool-cases (leb (key c) (key d))) [
    | inl e ↦ rw e at m
    | inr e ↦ elim (Elem-cases (rw e at m)) [
      | inl same ↦ rw (← same) (there here)
      | inr rest ↦ elim (Elem-cases (Elem-insert_by x c ds rest)) [
        | inl same ↦ rw (← same) here
        | inr rest' ↦ there (there rest')
      ]
    ]
  ]

  insert_by-Elem :
      (x c : EndpointClient) (cs : List EndpointClient)
      → Elem x (c ∷ cs)
      → Elem x (insert_by key c cs)
  insert_by-Elem x c [] m = m
  insert_by-Elem x c (d ∷ ds) m = elim (Bool-cases (leb (key c) (key d))) [
    | inl e ↦ rw e m
    | inr e ↦ rw e (elim (Elem-cases m) [
      | inl same ↦ there (insert_by-Elem x c ds (rw (← same) here))
      | inr rest ↦ elim (Elem-cases rest) [
        | inl same ↦ rw (← same) here
        | inr rest' ↦ there (insert_by-Elem x c ds (there rest'))
      ]
    ])
  ]

  pub Elem-sort_by_key :
      (x : EndpointClient) (cs : List EndpointClient) → Elem x (sort_by_key key cs) → Elem x cs
  Elem-sort_by_key x [] m = m
  Elem-sort_by_key x (c ∷ cs) m = elim (Elem-cases (Elem-insert_by x c (sort_by_key key cs) m)) [
    | inl same ↦ rw (← same) here
    | inr rest ↦ there (Elem-sort_by_key x cs rest)
  ]

  pub sort_by_key-Elem :
      (x : EndpointClient) (cs : List EndpointClient) → Elem x cs → Elem x (sort_by_key key cs)
  sort_by_key-Elem x [] m = m
  sort_by_key-Elem x (c ∷ cs) m = insert_by-Elem x c (sort_by_key key cs) (elim (Elem-cases m) [
    | inl same ↦ rw (← same) here
    | inr rest ↦ there (sort_by_key-Elem x cs rest)
  ])

-- By ascending key.
abbrev pub InOrder : (EndpointClient → ℕ) → List EndpointClient → Type 0
InOrder key [] = Unit
InOrder key (c ∷ cs) = All (λ d. key c ≤ key d) cs × InOrder key cs

module _ (key : EndpointClient → ℕ) where
  All-insert_by :
      (b : ℕ) (c : EndpointClient) (cs : List EndpointClient)
      → b ≤ key c
      → All (λ d. b ≤ key d) cs
      → All (λ d. b ≤ key d) (insert_by key c cs)
  All-insert_by b c [] le a = (le, tt)
  All-insert_by b c (d ∷ ds) le a = elim (Bool-cases (leb (key c) (key d))) [
    | inl e ↦ rw e (le, a)
    | inr e ↦ rw e (a.0, All-insert_by b c ds le a.1)
  ]

  insert_by-InOrder :
      (c : EndpointClient) (cs : List EndpointClient)
      → InOrder key cs
      → InOrder key (insert_by key c cs)
  insert_by-InOrder c [] o = (tt, tt)
  insert_by-InOrder c (d ∷ ds) o = elim (Bool-cases (leb (key c) (key d))) [
    | inl e ↦
        let le : key c ≤ key d = leb→le (key c) (key d) e in
        rw e (
          (
            le,
            All-map (λ f. key d ≤ key f) (λ f. key c ≤ key f) ds (λ f h. omega (arith, h, le)) o.0,
          ),
          o,
        )
    | inr e ↦
        let le : key d ≤ key c = ground arith in
        rw e (All-insert_by (key d) c ds le o.0, insert_by-InOrder c ds o.1)
  ]

  pub sort_by_key-InOrder : (cs : List EndpointClient) → InOrder key (sort_by_key key cs)
  sort_by_key-InOrder [] = tt
  sort_by_key-InOrder (c ∷ cs) = insert_by-InOrder c (sort_by_key key cs) (sort_by_key-InOrder cs)

-- A client that is loaded for one of these endpoints.
abbrev pub Loaded : List ℕ → Assoc ℕ EndpointClient → EndpointClient → Type 0
Loaded ids m c = (id : ℕ) × Elem id ids × (lookup id m ≡ some c)

pub Elem-clients_of :
    (c : EndpointClient) (ids : List ℕ) (m : Assoc ℕ EndpointClient)
    → Elem c (clients_of ids m)
    → Loaded ids m c
unfolding clients_of
Elem-clients_of c [] m e = elim e [ ]
Elem-clients_of c (id ∷ ids) m e = elim (Option-cases (lookup id m)) [
  | inl missing ↦
      let (j, at, l) = Elem-clients_of c ids m (rw (missing, clients_of) at e) in (j, there at, l)
  | inr (d, found) ↦ elim (Elem-cases (rw (found, clients_of) at e)) [
    | inl same ↦ (id, here, found ∙ ap some same)
    | inr rest ↦ let (j, at, l) = Elem-clients_of c ids m rest in (j, there at, l)
  ]
]

pub clients_of-Elem :
    (c : EndpointClient) (id : ℕ) (ids : List ℕ) (m : Assoc ℕ EndpointClient)
    → Elem id ids
    → lookup id m ≡ some c
    → Elem c (clients_of ids m)
unfolding clients_of
clients_of-Elem c id [] m at l = elim at [ ]
clients_of-Elem c id (j ∷ ids) m at l = elim (Elem-cases at) [
  | inl same ↦ let l' : lookup j m ≡ some c = rw same l in rw (l', clients_of) here
  | inr rest ↦ elim (Option-cases (lookup j m)) [
    | inl missing ↦ rw (missing, clients_of) (clients_of-Elem c id ids m rest l)
    | inr (d, found) ↦ rw (found, clients_of) (there (clients_of-Elem c id ids m rest l))
  ]
]

pub Elem-candidates :
    (c : EndpointClient) (team : List Endpoint) (pool : EndpointPool)
    → Elem c (candidates team pool)
    → Loaded (ids_of team) pool.clients c
unfolding candidates
Elem-candidates c team pool m =
    Elem-clients_of c (ids_of team) pool.clients (Elem-sort_by_key (priority team) c _ m)

pub candidates-Elem :
    (c : EndpointClient) (team : List Endpoint) (pool : EndpointPool)
    → Loaded (ids_of team) pool.clients c
    → Elem c (candidates team pool)
unfolding candidates
candidates-Elem c team pool (id, at, l) =
    sort_by_key-Elem (priority team) c _ (clients_of-Elem c id (ids_of team) pool.clients at l)
