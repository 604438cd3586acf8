-- ===== src/Endpoint/Pool/Reload.antt =====
-- `load_endpoints_inner` of src/endpoint/mod.rs: the clients are built again when the configuration
-- changes. The overrides of an endpoint come from the database, or nothing where the query fails; a
-- client is always built.
use claude_code_aws_gateway.Prelude.{
  ℕ, ◌≡◌, refl, ◌∙◌, sym, inl, inr, false, Option, none, some, List, [], ◌∷◌, String, arith, ◌==◌,
  nat_eq, eqb_iff, subst, Bool-cases, Option-cases, if◌then◌else◌,
}
use claude_code_aws_gateway.Prelude.Text.{Text, text_eq}
use claude_code_aws_gateway.Prelude.Assoc.{Assoc, lookup, insert, lookup-insert}
use claude_code_aws_gateway.Endpoint.Pool.{
  Endpoint, EndpointClient, EndpointPool, usable, select_endpoint,
}
use claude_code_aws_gateway.Endpoint.Pool.Select.{IsOffered, select-IsOffered}

-- The rows by model, the last of a model counts.
abbrev pub overrides_of : List (Text × Text) → Assoc Text Text → Assoc Text Text
overrides_of [] m = m
overrides_of ((model_id, aip_arn) ∷ rows) m = overrides_of rows (insert model_id aip_arn m)

abbrev pub models_of : Option EndpointClient → List Text
models_of none = []
models_of (some c) = c.available_models

abbrev pub rows_of : Option (List (Text × Text)) → List (Text × Text)
rows_of none = []
rows_of (some rows) = rows

-- The last default counts.
abbrev pub new_default : List Endpoint → Option ℕ → Option ℕ
new_default [] d = d
new_default (ep ∷ endpoints) d = new_default endpoints (if ep.is_default then some ep.id else d)

-- The last configuration of an id.
abbrev pub last_with : ℕ → List Endpoint → Option Endpoint → Option Endpoint
last_with id [] found = found
last_with id (ep ∷ endpoints) found =
    last_with id endpoints (if ep.id == id then some ep else found)

module _ (db : ℕ → Option (List (Text × Text))) where
  -- The list of models is kept from the client of the same id.
  unfoldable pub create_client_with_caches : Option EndpointClient → Endpoint → EndpointClient
  create_client_with_caches preserved ep = record {
    config = ep;
    healthy = false;
    available_models = models_of preserved;
    aip_overrides = overrides_of (rows_of (db ep.id)) [];
  }

  unfoldable pub build_clients :
      List Endpoint → Assoc ℕ EndpointClient → Assoc ℕ EndpointClient → Assoc ℕ EndpointClient
  unfolding create_client_with_caches
  build_clients [] preserved new_clients = new_clients
  build_clients (ep ∷ endpoints) preserved new_clients =
      build_clients endpoints preserved
        (insert ep.id (create_client_with_caches (lookup ep.id preserved) ep) new_clients)

  unfoldable pub load_endpoints_inner : List Endpoint → EndpointPool → EndpointPool
  unfolding build_clients
  load_endpoints_inner endpoints pool = record pool {
    clients = build_clients endpoints pool.clients [];
    default_endpoint_id = new_default endpoints none;
  }

  abbrev pub built :
      Assoc ℕ EndpointClient → Option Endpoint → Option EndpointClient → Option EndpointClient
  built preserved none old = old
  built preserved (some ep) old = some (create_client_with_caches (lookup ep.id preserved) ep)

  lookup-build_clients :
      (id : ℕ) (endpoints : List Endpoint) (preserved new_clients : Assoc ℕ EndpointClient)
      (found : Option Endpoint)
      → lookup id new_clients ≡ built preserved found none
      → lookup id (build_clients endpoints preserved new_clients)
        ≡ built preserved (last_with id endpoints found) none
  unfolding build_clients
  lookup-build_clients id [] preserved new_clients found h = h
  lookup-build_clients id (ep ∷ endpoints) preserved new_clients found h =
      lookup-build_clients id endpoints preserved _ (if ep.id == id then some ep else found) (
        lookup-insert ep.id id _ new_clients
        ∙ (elim (Bool-cases (ep.id == id)) [ inl e ↦ rw e refl | inr e ↦ rw e h ]))

  built-unusable :
      (preserved : Assoc ℕ EndpointClient) (found : Option Endpoint) (c : EndpointClient)
      → built preserved found none ≡ some c
      → usable c ≡ false
  unfolding create_client_with_caches
  built-unusable preserved none c h = absurd (ground arith)
  built-unusable preserved (some ep) c h = ground arith

  -- A client of a reloaded pool is not usable.
  loaded-unusable :
      (endpoints : List Endpoint) (pool : EndpointPool) (id : ℕ) (c : EndpointClient)
      → lookup id (load_endpoints_inner endpoints pool).clients ≡ some c
      → usable c ≡ false
  unfolding load_endpoints_inner
  loaded-unusable endpoints pool id c h =
      built-unusable pool.clients (last_with id endpoints none) c
        (sym (lookup-build_clients id endpoints pool.clients [] none (unfold lookup in refl)) ∙ h)

  offered-unusable :
      (endpoints : List Endpoint) (pool : EndpointPool) (team : List Endpoint) (c : EndpointClient)
      → IsOffered team (load_endpoints_inner endpoints pool) c
      → usable c ≡ false
  offered-unusable endpoints pool [] c (id, e, l) = loaded-unusable endpoints pool id c l
  offered-unusable endpoints pool (t ∷ team) c (id, at, l) = loaded-unusable endpoints pool id c l

  -- What a reload makes of an endpoint: nothing where the configuration does not name it, else a
  -- client with that configuration and the overrides of the database, which is not healthy and has
  -- the models of the client of this id before, or none where there was no such client.
  abbrev pub IsRebuilt :
      ℕ → Assoc ℕ EndpointClient → Option Endpoint → Option EndpointClient → Type 0
  IsRebuilt id old none o = o ≡ none
  IsRebuilt id old (some ep) o =
      (c : EndpointClient) × (o ≡ some c)
      × (c.config ≡ ep)
      × (c.healthy ≡ false)
      × ((d : EndpointClient) → lookup id old ≡ some d → c.available_models ≡ d.available_models)
      × (lookup id old ≡ none → c.available_models ≡ [])
      × (c.aip_overrides ≡ overrides_of (rows_of (db id)) [])

  models-kept :
      (o : Option EndpointClient)
      → ((d : EndpointClient) → o ≡ some d → models_of o ≡ d.available_models)
        × (o ≡ none → models_of o ≡ [])
  models-kept none = (λ d e. absurd (ground arith), λ e. refl)
  models-kept (some c) = (λ d e. ground arith, λ e. absurd (ground arith))

  built-IsRebuilt :
      (id : ℕ) (old : Assoc ℕ EndpointClient) (found : Option Endpoint)
      → ((ep : Endpoint) → found ≡ some ep → ep.id ≡ id)
      → IsRebuilt id old found (built old found none)
  unfolding create_client_with_caches
  built-IsRebuilt id old none named = refl
  built-IsRebuilt id old (some ep) named =
      let same : ep.id ≡ id = named ep refl in
      let kept = models-kept (lookup id old) in
      (
        create_client_with_caches (lookup ep.id old) ep,
        refl,
        refl,
        refl,
        λ d e. rw same (kept.0 d e),
        λ e. rw same (kept.1 e),
        rw same refl,
      )

  last_with-id :
      (id : ℕ) (endpoints : List Endpoint) (found : Option Endpoint)
      → ((ep : Endpoint) → found ≡ some ep → ep.id ≡ id)
      → (ep : Endpoint) → last_with id endpoints found ≡ some ep
      → ep.id ≡ id
  last_with-id id [] found named ep e = named ep e
  last_with-id id (first ∷ endpoints) found named ep e =
      last_with-id id endpoints (if first.id == id then some first else found)
        (λ f h. elim (Bool-cases (first.id == id)) [
          | inl t ↦ ground (arith, eqb_iff first.id id)
          | inr t ↦ ground (arith, named f)
        ])
        ep e

  rebuilt :
      (endpoints : List Endpoint) (pool : EndpointPool) (id : ℕ)
      → IsRebuilt id pool.clients
          (last_with id endpoints none)
          (lookup id (load_endpoints_inner endpoints pool).clients)
  unfolding load_endpoints_inner lookup
  rebuilt endpoints pool id =
      subst (IsRebuilt id pool.clients (last_with id endpoints none))
        (sym (lookup-build_clients id endpoints pool.clients [] none refl))
        (built-IsRebuilt id pool.clients (last_with id endpoints none)
          (last_with-id id endpoints none (λ ep e. absurd (ground arith))))

  -- After a reload the pool has a client for just the endpoints of the configuration, the last of an
  -- id counting: with that configuration, the overrides of the database and the models that a client
  -- of this id had, if there was one. But no request is offered any of them, whatever the team, the
  -- user and the strategy, until a health check.
  pub reload_unusable :
      (endpoints : List Endpoint) (pool : EndpointPool) (id now : ℕ) (team : List Endpoint)
      (user : Option String) (strategy : String)
      → IsRebuilt id pool.clients
          (last_with id endpoints none)
          (lookup id (load_endpoints_inner endpoints pool).clients)
        × ((select_endpoint now team user strategy (load_endpoints_inner endpoints pool)).0 ≡ none)
  reload_unusable endpoints pool id now team user strategy = (
    rebuilt endpoints pool id,
    elim (Option-cases
        (select_endpoint now team user strategy (load_endpoints_inner endpoints pool)).0) [
          | inl e ↦ e
          | inr (c, e) ↦
              let (offered, fit) =
                select-IsOffered now team user strategy (load_endpoints_inner endpoints pool) c e in
              let off = offered-unusable endpoints pool team c offered in absurd (ground arith)
        ],
  )
