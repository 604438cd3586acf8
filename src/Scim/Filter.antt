-- ===== src/Scim/Filter.antt =====
-- src/scim/filter.rs: the parser of filter expressions. A text is the list of its code points; the
-- source counts bytes, and slicing a text inside a character is a panic, so the number of bytes of
-- each character is part of the model. Case is folded for ASCII letters, which is enough to compare
-- with the operators. Error texts are constructors that carry what the text shows.
pub mod Split
pub mod Total
pub mod Scan
pub mod RoundTrip
mod Tests
use claude_code_aws_gateway.Prelude.{
  ℕ, zero, suc, ◌+◌, ◌-◌, ◌≤◌, Bool, true, false, not, ◌&&◌, ◌||◌, Option, none, some, List, [],
  ◌∷◌, ◌++◌, ltb, leb, eqb, length, ◌==◌, drop, if◌then◌else◌,
}
use claude_code_aws_gateway.Prelude.Text.{
  char_len, byte_len, Text, codes, text_beq, text_eq, to_lower, eq_ignore_case, prepend,
}

pub data ScimFilter : Type 0 where
  equals contains starts_with : Text → Text → ScimFilter
  conj : ScimFilter → ScimFilter → ScimFilter

pub data FilterError : Type 0 where
  empty_expression missing_operator empty_attribute : FilterError
  missing_value unknown_operator unterminated invalid_value : Text → FilterError
  missing_value_after : Text → Text → FilterError

-- The result of the parser. The last case is that of a model run that was given too few steps.
pub data Parsed (A : Type 0) : Type 0 where
  ok : A → Parsed A
  err : FilterError → Parsed A
  panicked out_of_fuel : Parsed A

-- `char::is_whitespace`
abbrev pub is_whitespace : ℕ → Bool
is_whitespace c =
    leb 9 c && leb c 13
    || eqb c 32
    || eqb c 133
    || eqb c 160
    || eqb c 5760
    || leb 8192 c && leb c 8202
    || eqb c 8232
    || eqb c 8233
    || eqb c 8239
    || eqb c 8287
    || eqb c 12288

-- The first n bytes, if a character ends there.
unfoldable pub take_bytes : ℕ → Text → Option Text
take_bytes zero s = some []
take_bytes (suc n) [] = none
take_bytes (suc n) (c ∷ s) =
    let rest = take_bytes (suc n - char_len c) s in
    if leb (char_len c) (suc n) then elim rest [ none ↦ none | some t ↦ some (c ∷ t) ] else none

unfoldable pub trim_start : Text → Text
trim_start [] = []
trim_start (c ∷ s) = let rest = trim_start s in if is_whitespace c then rest else c ∷ s

abbrev pub trim_cons : ℕ → Text → Text
trim_cons c [] = if is_whitespace c then [] else c ∷ []
trim_cons c (d ∷ t) = c ∷ d ∷ t

unfoldable pub trim_end : Text → Text
trim_end [] = []
trim_end (c ∷ s) = trim_cons c (trim_end s)

unfoldable pub trim : Text → Text
unfolding trim_start trim_end
trim s = trim_end (trim_start s)

abbrev pub quote : ℕ
quote = b'"'

pub data SplitAnd : Type 0 where
  panics whole : SplitAnd
  parts : Text → Text → SplitAnd

abbrev pub extend : ℕ → SplitAnd → SplitAnd
extend c panics = panics
extend c whole = whole
extend c (parts l r) = parts (c ∷ l) r

-- One byte position at the start of character c, outside of quotes, and then the positions inside
-- of c: `next` is what the loop finds behind c.
abbrev pub scan : ℕ → Text → SplitAnd → SplitAnd
scan c s next = if ltb (byte_len (c ∷ s)) 5 then extend c next else elim (take_bytes 5 (c ∷ s)) [
  | none ↦ panics
  | some candidate ↦
      if eq_ignore_case candidate (codes " and ")
      then parts [] (drop 5 (c ∷ s))
      else if ltb 1 (char_len c) && ltb 5 (byte_len (c ∷ s))
      then panics
      else extend c next
]

unfoldable pub split_from : Bool → Text → SplitAnd
unfolding take_bytes eq_ignore_case
split_from in_quotes [] = whole
split_from in_quotes (c ∷ s) =
    let toggled = extend c (split_from (not in_quotes) s) in
    let next = split_from in_quotes s in
    if eqb c quote then toggled else if in_quotes then extend c next else scan c s next

unfoldable pub split_and : Text → SplitAnd
unfolding split_from
split_and = split_from false

-- The text before the first white space, and the text from there on.
unfoldable pub find_space : Text → Option (Text × Text)
find_space [] = none
find_space (c ∷ s) =
    let rest = prepend c (find_space s) in if is_whitespace c then some ([], c ∷ s) else rest

abbrev pub is_nil : Text → Bool
is_nil [] = true
is_nil (_ ∷ _) = false

-- `inner.replace("\\\"", "\"")`
unfoldable pub unescape : Text → Text
unescape [] = []
unescape (c ∷ []) = c ∷ []
unescape (c ∷ d ∷ s) =
    let skipped = unescape s in
    let rest = unescape (d ∷ s) in if eqb c b'\\' && eqb d quote then quote ∷ skipped else c ∷ rest

-- The text without its last character, if that is a quote.
unfoldable pub strip_quote : Text → Option Text
strip_quote [] = none
strip_quote (c ∷ []) = if eqb c quote then some [] else none
strip_quote (c ∷ d ∷ s) = elim (strip_quote (d ∷ s)) [ none ↦ none | some t ↦ some (c ∷ t) ]

abbrev pub parse_quoted : Text → Parsed Text
parse_quoted [] = err (invalid_value [])
parse_quoted (c ∷ s) =
    if eqb c quote
    then elim (strip_quote s) [
      | none ↦ err (unterminated (c ∷ s))
      | some inner ↦ ok (unescape inner)
    ]
    else err (invalid_value (c ∷ s))

unfoldable pub parse_comp_value : Text → Parsed Text
unfolding trim eq_ignore_case strip_quote unescape
parse_comp_value input =
    let t = trim input in
    if eq_ignore_case t (codes "true")
    then ok (codes "true")
    else if eq_ignore_case t (codes "false")
    then ok (codes "false")
    else parse_quoted t

abbrev pub by_operator : Text → Text → Text → Parsed ScimFilter
by_operator attr op value =
    if op == codes "eq"
    then ok (equals attr value)
    else if op == codes "co"
    then ok (contains attr value)
    else if op == codes "sw"
    then ok (starts_with attr value)
    else err (unknown_operator op)

abbrev pub with_value : Text → Text → Parsed Text → Parsed ScimFilter
with_value attr op (ok value) = by_operator attr (to_lower op) value
with_value attr op (err e) = err e
with_value attr op panicked = panicked
with_value attr op out_of_fuel = out_of_fuel

abbrev pub parse_op : Text → Option (Text × Text) → Parsed ScimFilter
parse_op attr none = err (missing_value attr)
parse_op attr (some (op, after_op)) =
    let value_part = trim after_op in
    if is_nil value_part
    then err (missing_value_after op attr)
    else with_value attr op (parse_comp_value value_part)

abbrev pub parse_attr : Option (Text × Text) → Parsed ScimFilter
parse_attr none = err missing_operator
parse_attr (some (attr, after_attr)) =
    if is_nil attr then err empty_attribute else parse_op attr (find_space (trim_start after_attr))

unfoldable pub parse_attr_expr : Text → Parsed ScimFilter
unfolding trim trim_start find_space parse_comp_value to_lower
parse_attr_expr input = parse_attr (find_space (trim input))

-- `?` on the two sides of a conjunction.
abbrev pub both : Parsed ScimFilter → Parsed ScimFilter → Parsed ScimFilter
both (ok l) (ok r) = ok (conj l r)
both (ok l) (err e) = err e
both (ok l) panicked = panicked
both (ok l) out_of_fuel = out_of_fuel
both (err e) r = err e
both panicked r = panicked
both out_of_fuel r = out_of_fuel

unfoldable pub parse_with : ℕ → Text → Parsed ScimFilter
unfolding trim split_and parse_attr_expr
parse_with zero input = out_of_fuel
parse_with (suc fuel) input =
    let t = trim input in
    if is_nil t then err empty_expression else elim (split_and t) [
      | panics ↦ panicked
      | whole ↦ parse_attr_expr t
      | parts l r ↦ both (parse_with fuel (trim l)) (parse_with fuel (trim r))
    ]

-- As many steps as the text has characters, and one.
unfoldable pub parse_filter : Text → Parsed ScimFilter
unfolding parse_with
parse_filter input = parse_with (suc (length input)) input

-- `Display`
unfoldable pub print : ScimFilter → Text
print (equals attr val) = attr ++ (codes " eq \"" ++ (val ++ codes "\""))
print (contains attr val) = attr ++ (codes " co \"" ++ (val ++ codes "\""))
print (starts_with attr val) = attr ++ (codes " sw \"" ++ (val ++ codes "\""))
print (conj l r) = codes "(" ++ (print l ++ (codes ") and (" ++ (print r ++ codes ")")))
