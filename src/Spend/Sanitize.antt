-- ===== src/Spend/Sanitize.antt =====
-- src/spend/sanitize.rs: NUL characters are taken out of texts, object keys and JSON trees before
-- they reach Postgres.
pub mod Clean
use claude_code_aws_gateway.Prelude.{
  ℕ, Bool, true, false, not, Option, none, some, List, [], ◌∷◌, eqb, any, retain, ◌==◌,
  if◌then◌else◌,
}
use claude_code_aws_gateway.Prelude.Text.{Text, text_eq}
use claude_code_aws_gateway.Json.{
  Json, null, boolean, number, string, array, object, Items, nil, cons, Fields, end, field, get,
  put, delete, keys,
}

abbrev pub is_nul : ℕ → Bool
is_nul c = eqb c 0

-- `s.contains('\0')`
abbrev pub has_nul : Text → Bool
has_nul = any is_nul

abbrev pub not_nul : ℕ → Bool
not_nul c = not (is_nul c)

-- `s.replace('\0', "")`
abbrev pub strip_nul : Text → Text
strip_nul = retain not_nul

-- The borrowed and the owned result are the same text.
unfoldable pub sanitize_string : Text → Text
sanitize_string s = if has_nul s then strip_nul s else s

-- One poisoned key: the value moves to the key without NULs.
rename_key : Text → Fields → Fields
rename_key old_key fs = elim (get old_key fs) [
  | none ↦ fs
  | some v ↦ put (strip_nul old_key) v (delete old_key fs)
]

rename_keys : List Text → Fields → Fields
unfolding rename_key
rename_keys [] fs = fs
rename_keys (k ∷ ks) fs = rename_keys ks (rename_key k fs)

abbrev pub poisoned_keys : Fields → List Text
poisoned_keys fs = retain has_nul (keys fs)

unfoldable mutual
  unfolding sanitize_string rename_keys

  pub sanitize_json : Json → Json
  sanitize_json null = null
  sanitize_json (boolean b) = boolean b
  sanitize_json (number n) = number n
  sanitize_json (string s) = string (sanitize_string s)
  sanitize_json (array xs) = array (sanitize_items xs)
  sanitize_json (object fs) =
      let values = sanitize_values fs in object (rename_keys (poisoned_keys values) values)

  pub sanitize_items : Items → Items
  sanitize_items nil = nil
  sanitize_items (cons x xs) = cons (sanitize_json x) (sanitize_items xs)

  pub sanitize_values : Fields → Fields
  sanitize_values end = end
  sanitize_values (field k v fs) = field k (sanitize_json v) (sanitize_values fs)
