-- ===== src/Json/Values.antt =====
-- The values of `serde_json` and the operations of its object map.
use claude_code_aws_gateway.Prelude.{
  Bool, ◌≡◌, refl, Option, none, some, List, [], ◌∷◌, ◌==◌, arith, if◌then◌else◌,
}
use claude_code_aws_gateway.Prelude.Text.{Text, text_eq, text_ltb, text_beq_iff}

mutual
  pub data Json : Type 0 where
    null : Json
    boolean : Bool → Json
    number : Text → Json
    string : Text → Json
    array : Items → Json
    object : Fields → Json

  pub data Items : Type 0 where
    nil : Items
    cons : Json → Items → Items

  pub data Fields : Type 0 where
    end : Fields
    field : Text → Json → Fields → Fields

-- `map.get(k)`
unfoldable pub get : Text → Fields → Option Json
get k end = none
get k (field j v fs) = let rest = get k fs in if j == k then some v else rest

-- `map.insert(k, v)`
unfoldable pub put : Text → Json → Fields → Fields
put k v end = field k v end
put k v (field j w fs) =
    let rest = put k v fs in
    if j == k
    then field k v fs
    else if text_ltb k j
    then field k v (field j w fs)
    else field j w rest

-- `map.remove(k)`
unfoldable pub delete : Text → Fields → Fields
delete k end = end
delete k (field j v fs) = let rest = delete k fs in if j == k then rest else field j v rest

-- `map.keys()`
unfoldable pub keys : Fields → List Text
keys end = []
keys (field k v fs) = k ∷ keys fs

-- `map.retain(|k, _| p(k))`
unfoldable pub keep_fields : (Text → Bool) → Fields → Fields
keep_fields p end = end
keep_fields p (field k v fs) = let rest = keep_fields p fs in if p k then field k v rest else rest

-- `map.entry(k).or_insert(v)`
unfoldable pub put_new : Text → Json → Fields → Fields
unfolding get put
put_new k v fs = elim (get k fs) [ none ↦ put k v fs | some _ ↦ fs ]

pub get-put :
    (k j : Text) (v : Json) (fs : Fields)
    → get j (put k v fs) ≡ (if k == j then some v else get j fs)
unfolding get put
get-put k j v end = refl
get-put k j v (field i w fs) =
    ground (arith, text_beq_iff k j, text_beq_iff i k, text_beq_iff i j, get-put k j v fs)

pub get-delete :
    (k j : Text) (fs : Fields) → get j (delete k fs) ≡ (if k == j then none else get j fs)
unfolding get delete
get-delete k j end = ground arith
get-delete k j (field i w fs) =
    ground (arith, get-delete k j fs, text_beq_iff k j, text_beq_iff i k, text_beq_iff i j)

pub get-keep_fields :
    (p : Text → Bool) (k : Text) (fs : Fields)
    → get k (keep_fields p fs) ≡ (if p k then get k fs else none)
unfolding get keep_fields
get-keep_fields p k end = ground arith
get-keep_fields p k (field i w fs) = ground (arith, get-keep_fields p k fs, text_beq_iff i k)
