-- ===== src/Json/Access.antt =====
-- How the source reads and changes a `serde_json::Value` in place.
use claude_code_aws_gateway.Prelude.{
  ℕ, ◌%◌, Bool, true, false, ◌+◌, ◌-◌, ◌*◌, ◌^◌, ◌≡◌, refl, inl, inr, Option, none, some, List, [],
  ◌∷◌, ltb, leb, eqb, ◌==◌, arith, Bool-cases, Option-cases, if◌then◌else◌,
}
use claude_code_aws_gateway.Prelude.Assoc.{map_option}
use claude_code_aws_gateway.Prelude.Text.{Text, text_eq, text_beq_iff, is_digit}
use claude_code_aws_gateway.Json.Values.{
  Json, null, boolean, number, string, array, object, Items, nil, cons, Fields, end, field, get,
  put_new, get-put,
}

-- `value.get(k)`
unfoldable pub at : Text → Json → Option Json
unfolding get
at k (object fs) = get k fs
at k null = none
at k (boolean b) = none
at k (number n) = none
at k (string s) = none
at k (array xs) = none

abbrev pub as_str : Json → Option Text
as_str (string s) = some s
as_str null = none
as_str (boolean b) = none
as_str (number n) = none
as_str (array xs) = none
as_str (object fs) = none

abbrev pub and_then {ℓ κ} : {A : Type ℓ} {B : Type κ} → Option A → (A → Option B) → Option B
and_then none f = none
and_then (some a) f = f a

abbrev pub or_else {ℓ} : {A : Type ℓ} → Option A → A → A
or_else none a = a
or_else (some b) a = b

-- `value.get(k).and_then(|v| v.as_str())`
unfoldable pub str_at : Text → Json → Option Text
unfolding at
str_at k v = and_then (at k v) as_str

abbrev digits_from : ℕ → Text → Option ℕ
digits_from n [] = some n
digits_from n (c ∷ s) =
    let rest = digits_from (n * 10 + (c - b'0')) s in if is_digit c then rest else none

abbrev below_u64 : Option ℕ → Option ℕ
below_u64 none = none
below_u64 (some n) = if ltb n (2 ^ 64) then some n else none

-- `value.as_u64()`: an integer without a sign.
unfoldable pub as_u64 : Json → Option ℕ
as_u64 (number []) = none
as_u64 (number (c ∷ s)) = below_u64 (digits_from 0 (c ∷ s))
as_u64 (string s) = none
as_u64 null = none
as_u64 (boolean b) = none
as_u64 (array xs) = none
as_u64 (object fs) = none

-- The 64 bits of an integer, in two's complement.
abbrev signed : Bool → Option ℕ → Option ℕ
signed negative none = none
signed negative (some n) =
    if negative
    then if leb n (2 ^ 63) then some ((2 ^ 64 - n) % 2 ^ 64) else none
    else if ltb n (2 ^ 63)
    then some n
    else none

abbrev number_i64 : Text → Option ℕ
number_i64 [] = none
number_i64 (c ∷ []) = signed false (digits_from 0 (c ∷ []))
number_i64 (c ∷ d ∷ s) =
    if eqb c b'-'
    then signed true (digits_from 0 (d ∷ s))
    else signed false (digits_from 0 (c ∷ d ∷ s))

-- `value.as_i64()`
unfoldable pub as_i64 : Json → Option ℕ
as_i64 (number s) = number_i64 s
as_i64 (string s) = none
as_i64 null = none
as_i64 (boolean b) = none
as_i64 (array xs) = none
as_i64 (object fs) = none

abbrev pub as_bool : Json → Option Bool
as_bool (boolean b) = some b
as_bool (number s) = none
as_bool (string s) = none
as_bool null = none
as_bool (array xs) = none
as_bool (object fs) = none

abbrev pub list_of : Items → List Json
list_of nil = []
list_of (cons x xs) = x ∷ list_of xs

-- `value.as_array()`
abbrev pub as_array : Json → Option (List Json)
as_array (array xs) = some (list_of xs)
as_array (boolean b) = none
as_array (number s) = none
as_array (string s) = none
as_array null = none
as_array (object fs) = none

-- `value.as_object()`
abbrev pub as_object : Json → Option Fields
as_object (object fs) = some fs
as_object (array xs) = none
as_object (boolean b) = none
as_object (number s) = none
as_object (string s) = none
as_object null = none

-- `if let Some(v) = map.get_mut(k)`, with a change of the value.
unfoldable pub update : Text → (Json → Json) → Fields → Fields
update k f end = end
update k f (field j v fs) =
    let rest = update k f fs in if j == k then field j (f v) fs else field j v rest

-- `if let Some(map) = value.as_object_mut()`
abbrev pub in_object : (Fields → Fields) → Json → Json
in_object f (object fs) = object (f fs)
in_object f null = null
in_object f (boolean b) = boolean b
in_object f (number n) = number n
in_object f (string s) = string s
in_object f (array xs) = array xs

abbrev pub items : List Json → Items
items [] = nil
items (x ∷ xs) = cons x (items xs)

pub get-update :
    (k j : Text) (f : Json → Json) (fs : Fields)
    → get j (update k f fs) ≡ (if k == j then map_option f (get j fs) else get j fs)
unfolding get update
get-update k j f end = ground arith
get-update k j f (field i w fs) = elim (Bool-cases (i == k)) [
  | inl e ↦
      let same : i ≡ k = (text_beq_iff i k).0 e in
      rw (e, same) (elim (Bool-cases (k == j)) [ inl d ↦ rw d refl | inr d ↦ rw d refl ])
  | inr e ↦ elim (Bool-cases (i == j)) [
    | inl d ↦ rw (e, d) (ground (arith, text_beq_iff i j, text_beq_iff k j, text_beq_iff i k))
    | inr d ↦ rw (e, d) (get-update k j f fs)
  ]
]

pub get-put_new :
    (k j : Text) (v : Json) (fs : Fields)
    → get j (put_new k v fs) ≡ (if k == j then some (or_else (get k fs) v) else get j fs)
unfolding put_new
get-put_new k j v fs = elim (Option-cases (get k fs)) [
  | inl n ↦ rw (put_new, n) (get-put k j v fs)
  | inr (w, e) ↦
      rw (put_new, e)
        (elim (Bool-cases (k == j)) [
          | inr d ↦ rw d refl
          | inl d ↦ let same : k ≡ j = (text_beq_iff k j).0 d in rw (d, ← same) e
        ])
]

-- The order of the two sides of a test does not matter.
pub beq_sym : (j k : Text) → (j == k) ≡ (k == j)
beq_sym j k = ground (arith, text_beq_iff j k, text_beq_iff k j)
