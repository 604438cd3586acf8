-- ===== src/Translate/Request/Accepted.antt =====
-- The fields that src/translate/request.rs leaves under `cache_control`. A value is called accepted
-- here when it has no others.
use claude_code_aws_gateway.Prelude.{
  ◌≡◌, refl, ap, subst, ◌↔◌, true, false, inl, inr, List, [], ◌∷◌, ◌==◌, map, All, arith,
  Bool-cases,
}
use claude_code_aws_gateway.Prelude.Text.{Text, text_eq, text_beq}
use claude_code_aws_gateway.Json.{
  Json, null, boolean, number, string, array, object, Items, nil, cons, Fields, end, field,
}
use claude_code_aws_gateway.Translate.Request.{
  cache_control, is_allowed, sanitize_cache_control, sanitize_items, sanitize_fields,
  sanitize_control, sanitize_allowed,
}

-- Under each key `cache_control`, at any depth, an object has only fields that are allowed.
unfoldable mutual
  pub IsAccepted : Json → Type 0
  IsAccepted null = Unit {0}
  IsAccepted (boolean b) = Unit {0}
  IsAccepted (number n) = Unit {0}
  IsAccepted (string s) = Unit {0}
  IsAccepted (array xs) = AcceptedItems xs
  IsAccepted (object fs) = AcceptedFields fs

  pub AcceptedItems : Items → Type 0
  AcceptedItems nil = Unit {0}
  AcceptedItems (cons x xs) = IsAccepted x × AcceptedItems xs

  pub AcceptedFields : Fields → Type 0
  AcceptedFields end = Unit {0}
  AcceptedFields (field k v fs) =
      IsAccepted v × (k ≡ cache_control → OnlyAllowed v) × AcceptedFields fs

  pub OnlyAllowed : Json → Type 0
  OnlyAllowed null = Unit {0}
  OnlyAllowed (boolean b) = Unit {0}
  OnlyAllowed (number n) = Unit {0}
  OnlyAllowed (string s) = Unit {0}
  OnlyAllowed (array xs) = Unit {0}
  OnlyAllowed (object fs) = AllowedKeys fs

  pub AllowedKeys : Fields → Type 0
  AllowedKeys end = Unit {0}
  AllowedKeys (field k v fs) = (is_allowed k ≡ true) × AllowedKeys fs

not_allowed : (k : Text) → k ≡ cache_control → is_allowed k ≡ true → ⊥
unfolding text_beq
not_allowed k same h = let h' : false ≡ true = rw same at h in ground arith

mutual
  unfolding IsAccepted sanitize_cache_control

  pub sanitize-IsAccepted : (v : Json) → IsAccepted (sanitize_cache_control v)
  sanitize-IsAccepted null = tt
  sanitize-IsAccepted (boolean b) = tt
  sanitize-IsAccepted (number n) = tt
  sanitize-IsAccepted (string s) = tt
  sanitize-IsAccepted (array xs) = sanitize_items-accepted xs
  sanitize-IsAccepted (object fs) = sanitize_fields-accepted fs

  sanitize_items-accepted : (xs : Items) → AcceptedItems (sanitize_items xs)
  sanitize_items-accepted nil = tt
  sanitize_items-accepted (cons x xs) = (sanitize-IsAccepted x, sanitize_items-accepted xs)

  sanitize_fields-accepted : (fs : Fields) → AcceptedFields (sanitize_fields fs)
  sanitize_fields-accepted end = tt
  sanitize_fields-accepted (field k v fs) = elim (Bool-cases (k == cache_control)) [
    | inl e ↦
        rw e (
          sanitize_control-accepted v,
          λ h. sanitize_control-allowed v,
          sanitize_fields-accepted fs,
        )
    | inr e ↦ rw e (
      sanitize-IsAccepted v,
      λ h. absurd (ground (arith, text_eq.beq_iff k cache_control)),
      sanitize_fields-accepted fs,
    )
  ]

  sanitize_control-accepted : (v : Json) → IsAccepted (sanitize_control v)
  sanitize_control-accepted null = tt
  sanitize_control-accepted (boolean b) = tt
  sanitize_control-accepted (number n) = tt
  sanitize_control-accepted (string s) = tt
  sanitize_control-accepted (array xs) = sanitize_items-accepted xs
  sanitize_control-accepted (object fs) = sanitize_allowed-accepted fs

  sanitize_control-allowed : (v : Json) → OnlyAllowed (sanitize_control v)
  sanitize_control-allowed null = tt
  sanitize_control-allowed (boolean b) = tt
  sanitize_control-allowed (number n) = tt
  sanitize_control-allowed (string s) = tt
  sanitize_control-allowed (array xs) = tt
  sanitize_control-allowed (object fs) = sanitize_allowed-keys fs

  sanitize_allowed-keys : (fs : Fields) → AllowedKeys (sanitize_allowed fs)
  sanitize_allowed-keys end = tt
  sanitize_allowed-keys (field k v fs) = elim (Bool-cases (is_allowed k)) [
    | inl e ↦ rw e (e, sanitize_allowed-keys fs)
    | inr e ↦ rw e (sanitize_allowed-keys fs)
  ]

  sanitize_allowed-accepted : (fs : Fields) → AcceptedFields (sanitize_allowed fs)
  sanitize_allowed-accepted end = tt
  sanitize_allowed-accepted (field k v fs) = elim (Bool-cases (is_allowed k)) [
    | inr e ↦ rw e (sanitize_allowed-accepted fs)
    | inl e ↦
        rw e (sanitize-IsAccepted v, λ h. absurd (not_allowed k h e), sanitize_allowed-accepted fs)
  ]

mutual
  unfolding IsAccepted sanitize_cache_control

  sanitize_id : (v : Json) → IsAccepted v → sanitize_cache_control v ≡ v
  sanitize_id null a = refl
  sanitize_id (boolean b) a = refl
  sanitize_id (number n) a = refl
  sanitize_id (string s) a = refl
  sanitize_id (array xs) a = ap array (sanitize_items_id xs a)
  sanitize_id (object fs) a = ap object (sanitize_fields_id fs a)

  sanitize_items_id : (xs : Items) → AcceptedItems xs → sanitize_items xs ≡ xs
  sanitize_items_id nil a = refl
  sanitize_items_id (cons x xs) a = rw (sanitize_id x a.0, sanitize_items_id xs a.1) refl

  sanitize_fields_id : (fs : Fields) → AcceptedFields fs → sanitize_fields fs ≡ fs
  sanitize_fields_id end a = refl
  sanitize_fields_id (field k v fs) a = elim (Bool-cases (k == cache_control)) [
    | inl e ↦
        rw
          (
            e,
            sanitize_control_id v a.0 (a.1 ((text_eq.beq_iff k cache_control).0 e)),
            sanitize_fields_id fs a.2,
          )
          refl
    | inr e ↦ rw (e, sanitize_id v a.0, sanitize_fields_id fs a.2) refl
  ]

  sanitize_control_id : (v : Json) → IsAccepted v → OnlyAllowed v → sanitize_control v ≡ v
  sanitize_control_id null a o = refl
  sanitize_control_id (boolean b) a o = refl
  sanitize_control_id (number n) a o = refl
  sanitize_control_id (string s) a o = refl
  sanitize_control_id (array xs) a o = ap array (sanitize_items_id xs a)
  sanitize_control_id (object fs) a o = ap object (sanitize_allowed_id fs a o)

  sanitize_allowed_id :
      (fs : Fields) → AcceptedFields fs → AllowedKeys fs → sanitize_allowed fs ≡ fs
  sanitize_allowed_id end a o = refl
  sanitize_allowed_id (field k v fs) a o =
      rw (o.0, sanitize_id v a.0, sanitize_allowed_id fs a.2 o.1) refl

-- A value is accepted just where the function leaves it as it is, and its result is accepted.
pub sanitize-accepted_iff :
    (v : Json)
    → (IsAccepted v ↔ (sanitize_cache_control v ≡ v)) × IsAccepted (sanitize_cache_control v)
sanitize-accepted_iff v =
    ((sanitize_id v, λ e. subst IsAccepted e (sanitize-IsAccepted v)), sanitize-IsAccepted v)

pub map-accepted : (vs : List Json) → All IsAccepted (map sanitize_cache_control vs)
map-accepted [] = tt
map-accepted (v ∷ vs) = (sanitize-IsAccepted v, map-accepted vs)
