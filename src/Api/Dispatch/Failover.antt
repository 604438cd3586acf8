-- ===== src/Api/Dispatch/Failover.antt =====
-- The failover of `messages` in src/api/handlers.rs.
use claude_code_aws_gateway.Prelude.{
  ℕ, ◌≡◌, ◌≢◌, inl, inr, refl, sym, ap, ◌∙◌, Bool, true, false, not, Option, none, some, List, [],
  ◌∷◌, ◌++◌, String, nat_eq, find, arith, any, map, retain, ◌==◌, Bool-cases, Option-cases,
}
use claude_code_aws_gateway.Prelude.Elem.{Elem, find-Elem}
use claude_code_aws_gateway.Prelude.Text.{Text, text_eq}
use claude_code_aws_gateway.Prelude.Assoc.{lookup}
use claude_code_aws_gateway.Endpoint.Pool.{
  Endpoint, EndpointClient, EndpointPool, usable, ids_of, clients_of, priority,
  get_fallback_endpoints,
}
use mathlib.Core.List.{append-nil, append_assoc}
use claude_code_aws_gateway.Endpoint.Pool.Candidates.{InOrder, sort_by_key-InOrder}
use claude_code_aws_gateway.Endpoint.Pool.Select.{fallback_iff}
use claude_code_aws_gateway.Api.Dispatch.{
  Sent, is_failover_eligible, reprefix_model, remember, first_call, try_fallbacks, send,
}

-- An endpoint to fail over to.
abbrev pub IsFallback : List Endpoint → EndpointPool → EndpointClient → EndpointClient → Type 0
IsFallback team pool primary ep =
    (id : ℕ) × Elem id (ids_of team)
    × (id ≢ primary.config.id)
    × (lookup id pool.clients ≡ some ep)
    × (usable ep ≡ true)

abbrev pub Offered : List Endpoint → EndpointPool → EndpointClient → Option EndpointClient → Type 0
Offered team pool primary none = Unit
Offered team pool primary (some ep) = IsFallback team pool primary ep

fallbacks-InOrder :
    (id : ℕ) (team : List Endpoint) (pool : EndpointPool)
    → InOrder (priority team) (get_fallback_endpoints id team pool)
unfolding get_fallback_endpoints
fallbacks-InOrder id [] pool = tt
fallbacks-InOrder id (e ∷ team) pool =
    sort_by_key-InOrder (priority (e ∷ team))
      (retain usable (clients_of (retain (λ j. not (j == id)) (ids_of (e ∷ team))) pool.clients))

module _ (answer : ℕ → Text → ℕ) (now : ℕ) (user : Option String)
    (model routing_prefix : Text) where
  abbrev pub answer_of : EndpointClient → ℕ
  answer_of ep = answer ep.config.id (reprefix_model model routing_prefix ep.config.routing_prefix)

  abbrev pub serves : EndpointClient → Bool
  serves ep = not (is_failover_eligible (answer_of ep))

  -- A call with what it asks for.
  abbrev pub call_of : EndpointClient → ℕ × Text
  call_of ep = (ep.config.id, reprefix_model model routing_prefix ep.config.routing_prefix)

  -- What comes of the fallbacks, by the first of them that serves the request.
  abbrev pub Served : List EndpointClient → Sent → Option EndpointClient → Sent → Type 0
  Served fallbacks sent none s =
      (is_failover_eligible s.status ≡ true)
      × (s.pool ≡ sent.pool)
      × (any serves fallbacks ≡ false)
      × (s.calls ≡ sent.calls ++ map call_of fallbacks)
  Served fallbacks sent (some ep) s =
      (s.status ≡ answer_of ep)
      × (s.by ≡ some ep.config.id)
      × (s.pool ≡ remember now user ep.config.id sent.pool)
      × (before : List EndpointClient) × (rest : List EndpointClient) × (fallbacks
          ≡ before ++ ep ∷ rest)
      × (any serves before ≡ false)
      × (s.calls ≡ sent.calls ++ map call_of (before ++ ep ∷ []))

  Served-cons :
      (ep : EndpointClient) (fallbacks : List EndpointClient) (next sent : Sent)
      (o : Option EndpointClient) (s : Sent)
      → serves ep ≡ false
      → next.pool ≡ sent.pool
      → next.calls ≡ sent.calls ++ call_of ep ∷ []
      → Served fallbacks next o s
      → Served (ep ∷ fallbacks) sent o s
  Served-cons ep fallbacks next sent none s fails same one (a, b, c, d) = (
    a,
    b ∙ same,
    ground arith,
    d ∙ ap (λ l. l ++ map call_of fallbacks) one ∙ append_assoc sent.calls (call_of ep ∷ []) _,
  )
  Served-cons ep fallbacks next sent (some f) s fails same one (a, b, c, before, rest, d, e, g) = (
    a,
    b,
    c ∙ ap (remember now user f.config.id) same,
    ep ∷ before,
    rest,
    ap (λ l. ep ∷ l) d,
    ground arith,
    g
        ∙ ap (λ l. l ++ map call_of (before ++ f ∷ [])) one
        ∙ append_assoc sent.calls (call_of ep ∷ []) _,
  )

  try_fallbacks-Served :
      (fallbacks : List EndpointClient) (sent : Sent)
      → is_failover_eligible sent.status ≡ true
      → Served fallbacks sent
          (find serves fallbacks)
          (try_fallbacks answer now user model routing_prefix fallbacks sent)
  unfolding try_fallbacks
  try_fallbacks-Served [] sent h = (h, refl, refl, sym (append-nil sent.calls))
  try_fallbacks-Served (ep ∷ fallbacks) sent h =
      let next : Sent = record {
        status = answer_of ep;
        by = some ep.config.id;
        calls = sent.calls ++ call_of ep ∷ [];
        pool = sent.pool;
      } in
      elim (Bool-cases (is_failover_eligible (answer_of ep))) [
        | inr e ↦ rw e (refl, refl, refl, [], fallbacks, refl, refl, refl)
        | inl e ↦ rw e (
            Served-cons ep fallbacks next sent (find serves fallbacks) _ (rw e refl) refl refl
              (try_fallbacks-Served fallbacks next e))
      ]

  offered :
      (team : List Endpoint) (pool : EndpointPool) (primary : EndpointClient)
      → Offered team pool primary (find serves (get_fallback_endpoints primary.config.id team pool))
  offered team pool primary =
      let fallbacks = get_fallback_endpoints primary.config.id team pool in
      elim (Option-cases (find serves fallbacks)) [
        | inl e ↦ rw e tt
        | inr (ep, e) ↦
            rw e ((fallback_iff primary.config.id team pool ep).0 (find-Elem serves fallbacks ep e))
      ]

  -- When the first endpoint throttles or fails, and no web search is on, the fallbacks are called in
  -- the order of the team's priority, each with the model that `reprefix_model` makes for its prefix,
  -- up to the first that does neither. That is a usable endpoint of the team other than the first; the
  -- client gets its answer, and the user, if known, is bound to it, whatever the strategy. If there is none, every fallback is
  -- called once in that order, the answer is one to fail over from, and no user is bound.
  pub send-Served :
      (team : List Endpoint) (primary : EndpointClient) (status : ℕ) (pool : EndpointPool)
      → is_failover_eligible status ≡ true
      → Served
          (get_fallback_endpoints primary.config.id team pool)
          (first_call status primary model pool)
          (find serves (get_fallback_endpoints primary.config.id team pool))
          (send answer now user model routing_prefix false team (some primary) status pool)
        × Offered team pool primary
            (find serves (get_fallback_endpoints primary.config.id team pool))
        × InOrder (priority team) (get_fallback_endpoints primary.config.id team pool)
  unfolding send
  send-Served team primary status pool h = rw h (
    try_fallbacks-Served (get_fallback_endpoints primary.config.id team pool)
        (first_call status primary model pool) h,
    offered team pool primary,
    fallbacks-InOrder primary.config.id team pool,
  )
