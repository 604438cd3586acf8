-- ===== src/Endpoint/Health/Union.antt =====
-- Which models `compute_health_state` of src/endpoint/mod.rs offers for an endpoint with overrides.
use claude_code_aws_gateway.Prelude.{
  ◌≡◌, ◌⊎◌, inl, inr, refl, sym, ap, ◌∙◌, Bool, true, false, Option, none, some, List, [], ◌∷◌,
  ◌++◌, arith, any, All, Bool-cases, Option-cases, ◌==◌,
}
use claude_code_aws_gateway.Prelude.Elem.{Elem, here, there, Elem-cases, Elem-append_left}
use claude_code_aws_gateway.Prelude.Text.{Text, text_eq, starts_with}
use claude_code_aws_gateway.Endpoint.Health.{
  HealthState, failed, member, seed, is_covered, resolve, add_overrides, compute_health_state,
}

starts_with_self : (s : Text) → starts_with s s ≡ true
unfolding starts_with
starts_with_self [] = refl
starts_with_self (c ∷ s) = ground (arith, starts_with_self s)

-- Whatever is covered stays so when the union grows.
any-append_left {ℓ} :
    {A : Type ℓ} (p : A → Bool) (xs ys : List A) → any p xs ≡ true → any p (xs ++ ys) ≡ true
any-append_left p [] ys h = absurd (ground arith)
any-append_left p (x ∷ xs) ys h = ground (arith, any-append_left p xs ys)

any-snoc {ℓ} :
    {A : Type ℓ} (p : A → Bool) (xs : List A) (y : A) → p y ≡ true → any p (xs ++ y ∷ []) ≡ true
any-snoc p [] y h = ground arith
any-snoc p (x ∷ xs) y h = ground (arith, any-snoc p xs y h)

append-nil {ℓ} : {A : Type ℓ} (xs : List A) → xs ++ [] ≡ xs
append-nil [] = refl
append-nil (x ∷ xs) = cc (append-nil xs)

snoc-append {ℓ} :
    {A : Type ℓ} (xs : List A) (y : A) (ys : List A) → (xs ++ y ∷ []) ++ ys ≡ xs ++ (y ∷ ys)
snoc-append [] y ys = refl
snoc-append (x ∷ xs) y ys = cc (snoc-append xs y ys)

module _ (get_foundation_model : Text → Option Text) (routing_prefix : Text) where
  -- An override that resolves to a model that the offered models cover.
  abbrev pub Resolves : List Text → Text → Type 0
  Resolves models arn =
      (id : Text) × (resolve get_foundation_model routing_prefix arn ≡ some id)
      × (is_covered models id ≡ true)

  -- What a healthy run of the loop over `arns` has made of a union.
  pub record Extends (union derived arns : List Text) (result : HealthState) : Type 0 where
    pub new : List Text
    pub models : result.available_models ≡ union ++ new
    pub marked : result.aip_derived_profile_ids ≡ derived ++ new
    pub resolved : All (Resolves result.available_models) arns

  step_failed :
      (union derived arns : List Text) (arn : Text)
      → resolve get_foundation_model routing_prefix arn ≡ none
      → add_overrides get_foundation_model routing_prefix union derived (arn ∷ arns) ≡ failed
  unfolding add_overrides
  step_failed union derived arns arn e = rw (e, add_overrides) refl

  step_skipped :
      (union derived arns : List Text) (arn id : Text)
      → resolve get_foundation_model routing_prefix arn ≡ some id
      → is_covered union id ≡ true
      → add_overrides get_foundation_model routing_prefix union derived (arn ∷ arns)
        ≡ add_overrides get_foundation_model routing_prefix union derived arns
  unfolding add_overrides
  step_skipped union derived arns arn id e c = rw (e, add_overrides, c) refl

  step_added :
      (union derived arns : List Text) (arn id : Text)
      → resolve get_foundation_model routing_prefix arn ≡ some id
      → is_covered union id ≡ false
      → add_overrides get_foundation_model routing_prefix union derived (arn ∷ arns)
        ≡ add_overrides get_foundation_model routing_prefix
            (union ++ id ∷ [])
            (derived ++ id ∷ [])
            arns
  unfolding add_overrides
  step_added union derived arns arn id e c = rw (e, add_overrides, c) refl

  covered_left :
      (union new : List Text) (id : Text)
      → is_covered union id ≡ true
      → is_covered (union ++ new) id ≡ true
  unfolding is_covered
  covered_left union new id h = any-append_left (λ existing. starts_with id existing) union new h

  covered_new : (union : List Text) (id : Text) → is_covered (union ++ id ∷ []) id ≡ true
  unfolding is_covered
  covered_new union id =
      any-snoc (λ existing. starts_with id existing) union id (starts_with_self id)

  add_overrides-Extends :
      (union derived arns : List Text)
      → (add_overrides get_foundation_model routing_prefix union derived arns).healthy ≡ true
      → Extends union derived arns
          (add_overrides get_foundation_model routing_prefix union derived arns)
  add_overrides-Extends union derived [] h =
      unfold add_overrides in
      record {
        new = [];
        models = sym (append-nil union);
        marked = sym (append-nil derived);
        resolved = tt;
      }
  add_overrides-Extends union derived (arn ∷ arns) h =
      elim (Option-cases (resolve get_foundation_model routing_prefix arn)) [
        | inl e ↦
            absurd (
              let h' : false ≡ true = rw (step_failed union derived arns arn e) at h in
              ground arith)
        | inr (id, e) ↦ elim (Bool-cases (is_covered union id)) [
          | inl c ↦
              let same = step_skipped union derived arns arn id e c in
              let x = add_overrides-Extends union derived arns (rw same at h) in
              rw same (record {
                new = x.new;
                models = x.models;
                marked = x.marked;
                resolved = (
                  (id, e, ap (λ ms. is_covered ms id) x.models ∙ covered_left union x.new id c),
                  x.resolved,
                );
              })
          | inr c ↦
              let same = step_added union derived arns arn id e c in
              let x =
                add_overrides-Extends (union ++ id ∷ []) (derived ++ id ∷ []) arns (rw same at h) in
              rw same (record {
                new = id ∷ x.new;
                models = x.models ∙ snoc-append union id x.new;
                marked = x.marked ∙ snoc-append derived id x.new;
                resolved = (
                  (
                    id,
                    e,
                    ap (λ ms. is_covered ms id) x.models
                        ∙ covered_left (union ++ id ∷ []) x.new id (covered_new union id),
                  ),
                  x.resolved,
                );
              })
        ]
      ]

member-Elem : (union : List Text) (m : Text) → member union m ≡ true → Elem m union
member-Elem [] m h = absurd (ground arith)
member-Elem (x ∷ union) m h = elim (Bool-cases (x == m)) [
  | inl e ↦ let same : x ≡ m = (text_eq.beq_iff x m).0 e in rw same here
  | inr e ↦ there (member-Elem union m (ground arith))
]

Elem-snoc : (union : List Text) (m : Text) → Elem m (union ++ m ∷ [])
Elem-snoc [] m = here
Elem-snoc (x ∷ union) m = there (Elem-snoc union m)

-- The seeded union keeps what it has and takes every model of the list.
seed-Elem : (union cri : List Text) (m : Text) → Elem m union ⊎ Elem m cri → Elem m (seed union cri)
unfolding seed
seed-Elem union [] m (inl a) = a
seed-Elem union [] m (inr a) = elim a [ ]
seed-Elem union (x ∷ cri) m o = elim (Bool-cases (member union x)) [
  | inl old ↦ rw old (
      seed-Elem union cri m (elim o [
        | inl a ↦ inl a
        | inr a ↦ elim (Elem-cases a) [
          | inl same ↦ inl (rw (← same) (member-Elem union x old))
          | inr rest ↦ inr rest
        ]
      ]))
  | inr new ↦ rw new (
      seed-Elem (union ++ x ∷ []) cri m (elim o [
        | inl a ↦ inl (Elem-append_left m union (x ∷ []) a)
        | inr a ↦ elim (Elem-cases a) [
          | inl same ↦ inl (rw (← same) (Elem-snoc union x))
          | inr rest ↦ inr rest
        ]
      ]))
]

-- An endpoint with overrides that is found healthy offers every model that Bedrock lists, and behind
-- them the models marked as derived from overrides; every override resolves to a model that one of
-- the offered ids is a prefix of.
pub health_union :
    (get_foundation_model : Text → Option Text) (routing_prefix : Text) (cri : List Text)
    (arn : Text) (arns : List Text) (legacy : Option Text)
    → let h =
        compute_health_state get_foundation_model routing_prefix (some cri) (arn ∷ arns) legacy in
      h.healthy ≡ true
      → ((m : Text) → Elem m cri → Elem m h.available_models)
        × (h.available_models ≡ seed [] cri ++ h.aip_derived_profile_ids)
        × All (Resolves get_foundation_model routing_prefix h.available_models) (arn ∷ arns)
unfolding compute_health_state
health_union get_foundation_model routing_prefix cri arn arns legacy healthy =
    let x =
      add_overrides-Extends get_foundation_model routing_prefix (seed [] cri) [] (arn ∷ arns)
        healthy in
    (
      λ m a. rw x.models (Elem-append_left m (seed [] cri) x.new (seed-Elem [] cri m (inr a))),
      x.models ∙ ap (λ ids. seed [] cri ++ ids) (sym x.marked),
      x.resolved,
    )

add_overrides-failed :
    (get_foundation_model : Text → Option Text) (routing_prefix : Text)
    (union derived arns : List Text)
    → (add_overrides get_foundation_model routing_prefix union derived arns).healthy ≡ false
    → (add_overrides get_foundation_model routing_prefix union derived arns ≡ failed)
      × ((a : Text) × Elem a arns × (resolve get_foundation_model routing_prefix a ≡ none))
add_overrides-failed get_foundation_model routing_prefix union derived [] h =
    absurd (unfold add_overrides in ground arith)
add_overrides-failed get_foundation_model routing_prefix union derived (arn ∷ arns) h =
    elim (Option-cases (resolve get_foundation_model routing_prefix arn)) [
      | inl e ↦
          (step_failed get_foundation_model routing_prefix union derived arns arn e, (arn, here, e))
      | inr (id, e) ↦ elim (Bool-cases (is_covered union id)) [
        | inl c ↦
            let same =
              step_skipped get_foundation_model routing_prefix union derived arns arn id e c in
            let (is, (a, at, bad)) =
              add_overrides-failed get_foundation_model routing_prefix union derived arns
                (rw same at h) in
            (same ∙ is, (a, there at, bad))
        | inr c ↦
            let same =
              step_added get_foundation_model routing_prefix union derived arns arn id e c in
            let (is, (a, at, bad)) =
              add_overrides-failed get_foundation_model routing_prefix (union ++ id ∷ [])
                (derived ++ id ∷ []) arns (rw same at h) in
            (same ∙ is, (a, there at, bad))
      ]
    ]

-- An endpoint with overrides whose models Bedrock lists is found unhealthy only if one of the overrides
-- does not resolve, and then nothing at all is offered.
pub health_unresolved :
    (get_foundation_model : Text → Option Text) (routing_prefix : Text) (cri : List Text)
    (arn : Text) (arns : List Text) (legacy : Option Text)
    → let h =
        compute_health_state get_foundation_model routing_prefix (some cri) (arn ∷ arns) legacy in
      h.healthy ≡ false
      → (h ≡ failed)
        × ((a : Text) × Elem a (arn ∷ arns)
            × (resolve get_foundation_model routing_prefix a ≡ none))
unfolding compute_health_state
health_unresolved get_foundation_model routing_prefix cri arn arns legacy unhealthy =
    add_overrides-failed get_foundation_model routing_prefix (seed [] cri) [] (arn ∷ arns) unhealthy
