-- ===== src/Spend/Sanitize/Clean.antt =====
-- After `sanitize_json` of src/spend/sanitize.rs no text and no key of a JSON tree holds a NUL.
use claude_code_aws_gateway.Prelude.{
  ◌≡◌, refl, sym, ap, ◌∙◌, Bool, true, false, not, none, some, List, [], ◌∷◌, arith, any, retain,
  All, All-map, ◌==◌, Bool-cases, Option-cases, inl, inr,
}
use claude_code_aws_gateway.Prelude.Text.{Text, text_eq, text_beq_iff, text_ltb}
use claude_code_aws_gateway.Json.{
  Json, null, boolean, number, string, array, object, Items, nil, cons, Fields, end, field, get,
  put, delete, keys,
}
use claude_code_aws_gateway.Spend.Sanitize.{
  has_nul, strip_nul, sanitize_string, rename_key, rename_keys, poisoned_keys, sanitize_json,
  sanitize_items, sanitize_values,
}

unfoldable mutual
  pub CleanJson : Json → Type 0
  CleanJson null = Unit {0}
  CleanJson (boolean b) = Unit {0}
  CleanJson (number n) = Unit {0}
  CleanJson (string s) = has_nul s ≡ false
  CleanJson (array xs) = CleanItems xs
  CleanJson (object fs) = CleanFields fs

  pub CleanItems : Items → Type 0
  CleanItems nil = Unit {0}
  CleanItems (cons x xs) = CleanJson x × CleanItems xs

  pub CleanFields : Fields → Type 0
  CleanFields end = Unit {0}
  CleanFields (field k v fs) = (has_nul k ≡ false) × CleanJson v × CleanFields fs

-- The values of an object, whatever its keys.
abbrev CleanValues : Fields → Type 0
CleanValues end = Unit {0}
CleanValues (field k v fs) = CleanJson v × CleanValues fs

strip_nul-clean : (s : Text) → has_nul (strip_nul s) ≡ false
strip_nul-clean [] = refl
strip_nul-clean (c ∷ s) = ground (arith, strip_nul-clean s)

pub sanitize_string-clean : (s : Text) → has_nul (sanitize_string s) ≡ false
unfolding sanitize_string
sanitize_string-clean s = ground (arith, strip_nul-clean s)

pub sanitize_string_id : (s : Text) → has_nul s ≡ false → sanitize_string s ≡ s
unfolding sanitize_string
sanitize_string_id s h = rw h

put-CleanValues :
    (k : Text) (v : Json) (fs : Fields) → CleanJson v → CleanValues fs → CleanValues (put k v fs)
unfolding put
put-CleanValues k v end c cs = (c, tt)
put-CleanValues k v (field j w fs) c cs = elim (Bool-cases (j == k)) [
  | inl e ↦ rw e (c, cs.1)
  | inr e ↦ elim (Bool-cases (text_ltb k j)) [
    | inl l ↦ rw (e, l) (c, cs)
    | inr l ↦ rw (e, l) (cs.0, put-CleanValues k v fs c cs.1)
  ]
]

delete-CleanValues : (k : Text) (fs : Fields) → CleanValues fs → CleanValues (delete k fs)
unfolding delete
delete-CleanValues k end c = tt
delete-CleanValues k (field j w fs) c = elim (Bool-cases (j == k)) [
  | inl e ↦ rw e (delete-CleanValues k fs c.1)
  | inr e ↦ rw e (c.0, delete-CleanValues k fs c.1)
]

get-Clean : (k : Text) (v : Json) (fs : Fields) → get k fs ≡ some v → CleanValues fs → CleanJson v
unfolding get
get-Clean k v end e c = absurd (ground arith)
get-Clean k v (field j w fs) e c = elim (Bool-cases (j == k)) [
  | inl h ↦ let same : w ≡ v = ground arith in rw (← same) c.0
  | inr h ↦ get-Clean k v fs (ground arith) c.1
]

rename_key-CleanValues : (k : Text) (fs : Fields) → CleanValues fs → CleanValues (rename_key k fs)
unfolding rename_key
rename_key-CleanValues k fs c = elim (Option-cases (get k fs)) [
  | inl e ↦ rw (e, rename_key) c
  | inr (v, e) ↦
      rw (e, rename_key)
        (put-CleanValues (strip_nul k) v (delete k fs) (get-Clean k v fs e c)
          (delete-CleanValues k fs c))
]

rename_keys-CleanValues :
    (ks : List Text) (fs : Fields) → CleanValues fs → CleanValues (rename_keys ks fs)
unfolding rename_keys
rename_keys-CleanValues [] fs c = c
rename_keys-CleanValues (k ∷ ks) fs c =
    rename_keys-CleanValues ks (rename_key k fs) (rename_key-CleanValues k fs c)

-- A list of keys without one of them.
abbrev without : Text → List Text → List Text
without k = retain (λ j. not (j == k))

poisoned_keys-put :
    (k : Text) (v : Json) (fs : Fields)
    → has_nul k ≡ false
    → poisoned_keys (put k v fs) ≡ poisoned_keys fs
unfolding put keys
poisoned_keys-put k v end h = rw h
poisoned_keys-put k v (field j w fs) h = ground (arith, poisoned_keys-put k v fs, text_beq_iff j k)

poisoned_keys-delete :
    (k : Text) (fs : Fields) → poisoned_keys (delete k fs) ≡ without k (poisoned_keys fs)
unfolding delete keys
poisoned_keys-delete k end = refl
poisoned_keys-delete k (field j w fs) = ground (arith, poisoned_keys-delete k fs)

poisoned_keys-missing :
    (k : Text) (fs : Fields) → get k fs ≡ none → without k (poisoned_keys fs) ≡ poisoned_keys fs
unfolding get keys
poisoned_keys-missing k end h = refl
poisoned_keys-missing k (field j w fs) h = ground (arith, poisoned_keys-missing k fs)

poisoned_keys-rename_key :
    (k : Text) (fs : Fields) → poisoned_keys (rename_key k fs) ≡ without k (poisoned_keys fs)
unfolding rename_key
poisoned_keys-rename_key k fs = elim (Option-cases (get k fs)) [
  | inl e ↦ rw (e, rename_key) (sym (poisoned_keys-missing k fs e))
  | inr (v, e) ↦
      rw (e, rename_key)
        (poisoned_keys-put (strip_nul k) v (delete k fs) (strip_nul-clean k)
          ∙ poisoned_keys-delete k fs)
]

without_all : List Text → List Text → List Text
without_all [] ds = ds
without_all (k ∷ ks) ds = without_all ks (without k ds)

poisoned_keys-rename_keys :
    (ks : List Text) (fs : Fields)
    → poisoned_keys (rename_keys ks fs) ≡ without_all ks (poisoned_keys fs)
unfolding rename_keys without_all
poisoned_keys-rename_keys [] fs = refl
poisoned_keys-rename_keys (k ∷ ks) fs =
    poisoned_keys-rename_keys ks (rename_key k fs)
    ∙ ap (without_all ks) (poisoned_keys-rename_key k fs)

abbrev listed : List Text → Text → Bool
listed ks d = any (λ k. d == k) ks

without-listed :
    (k : Text) (ks ds : List Text)
    → All (λ d. listed (k ∷ ks) d ≡ true) ds
    → All (λ d. listed ks d ≡ true) (without k ds)
without-listed k ks [] a = tt
without-listed k ks (d ∷ ds) a = elim (Bool-cases (d == k)) [
  | inl e ↦ rw e (without-listed k ks ds a.1)
  | inr e ↦ rw e (ground arith, without-listed k ks ds a.1)
]

without_all-nil : (ks ds : List Text) → All (λ d. listed ks d ≡ true) ds → without_all ks ds ≡ []
unfolding without_all
without_all-nil [] [] a = refl
without_all-nil [] (d ∷ ds) a = absurd (ground arith)
without_all-nil (k ∷ ks) ds a = without_all-nil ks (without k ds) (without-listed k ks ds a)

listed_self : (ds : List Text) → All (λ d. listed ds d ≡ true) ds
listed_self [] = tt
listed_self (d ∷ ds) = (
  ground (arith, text_beq_iff d d),
  All-map (λ c. listed ds c ≡ true) _ ds (λ c h. ground arith) (listed_self ds),
)

-- Clean values under keys of which none is poisoned.
unpoisoned : (fs : Fields) → CleanValues fs → poisoned_keys fs ≡ [] → CleanFields fs
unfolding keys CleanFields
unpoisoned end c e = tt
unpoisoned (field k v fs) c e = elim (Bool-cases (has_nul k)) [
  | inl h ↦ absurd (ground arith)
  | inr h ↦ (h, c.0, unpoisoned fs c.1 (ground arith))
]

rename_all-Clean : (fs : Fields) → CleanValues fs → CleanFields (rename_keys (poisoned_keys fs) fs)
rename_all-Clean fs c =
    unpoisoned (rename_keys (poisoned_keys fs) fs) (rename_keys-CleanValues (poisoned_keys fs) fs c)
      (poisoned_keys-rename_keys (poisoned_keys fs) fs
        ∙ without_all-nil (poisoned_keys fs) (poisoned_keys fs) (listed_self (poisoned_keys fs)))

mutual
  unfolding sanitize_json CleanJson

  clean_json : (v : Json) → CleanJson (sanitize_json v)
  clean_json null = tt
  clean_json (boolean b) = tt
  clean_json (number n) = tt
  clean_json (string s) = sanitize_string-clean s
  clean_json (array xs) = clean_items xs
  clean_json (object fs) = rename_all-Clean (sanitize_values fs) (clean_values fs)

  clean_items : (xs : Items) → CleanItems (sanitize_items xs)
  clean_items nil = tt
  clean_items (cons x xs) = (clean_json x, clean_items xs)

  clean_values : (fs : Fields) → CleanValues (sanitize_values fs)
  clean_values end = tt
  clean_values (field k v fs) = (clean_json v, clean_values fs)

clean-unpoisoned : (fs : Fields) → CleanFields fs → poisoned_keys fs ≡ []
unfolding keys CleanFields
clean-unpoisoned end c = refl
clean-unpoisoned (field k v fs) (h, c, cs) = rw h (clean-unpoisoned fs cs)

mutual
  unfolding sanitize_json CleanJson rename_keys

  json_id : (v : Json) → CleanJson v → sanitize_json v ≡ v
  json_id null c = refl
  json_id (boolean b) c = refl
  json_id (number n) c = refl
  json_id (string s) c = ap string (sanitize_string_id s c)
  json_id (array xs) c = ap array (items_id xs c)
  json_id (object fs) c = ap object (
      ap (λ gs. rename_keys (poisoned_keys gs) gs) (values_id fs c)
      ∙ ap (λ ks. rename_keys ks fs) (clean-unpoisoned fs c))

  items_id : (xs : Items) → CleanItems xs → sanitize_items xs ≡ xs
  items_id nil c = refl
  items_id (cons x xs) c = cc (json_id x c.0, items_id xs c.1)

  values_id : (fs : Fields) → CleanFields fs → sanitize_values fs ≡ fs
  values_id end c = refl
  values_id (field k v fs) (h, c, cs) = cc (json_id v c, values_id fs cs)

-- Sanitising any JSON tree leaves no NUL in a text or in an object key, at any depth, also where a
-- stripped key meets another; a tree without NULs is unchanged, so sanitising twice is sanitising once.
pub sanitize_json-Clean :
    (v : Json)
    → CleanJson (sanitize_json v)
      × (CleanJson v → sanitize_json v ≡ v)
      × (sanitize_json (sanitize_json v) ≡ sanitize_json v)
sanitize_json-Clean v = (clean_json v, json_id v, json_id (sanitize_json v) (clean_json v))
