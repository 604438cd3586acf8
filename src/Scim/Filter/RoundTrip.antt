-- ===== src/Scim/Filter/RoundTrip.antt =====
-- Printing a comparison and parsing it, in src/scim/filter.rs.
use claude_code_aws_gateway.Prelude.{
  ℕ, ◌≤◌, ◌<◌, ◌≡◌, ◌≢◌, refl, sym, ap, ◌∙◌, false, some, [], ◌∷◌, ◌++◌, arith, All,
}
use claude_code_aws_gateway.Prelude.Text.{Text, text_beq, to_lower, lower}
use claude_code_aws_gateway.Scim.Filter.{
  ScimFilter, equals, contains, starts_with, conj, ok, whole, is_whitespace, trim, trim_start,
  trim_end, trim_cons, quote, split_from, split_and, find_space, unescape, strip_quote,
  parse_quoted, parse_comp_value, by_operator, parse_op, with_value, parse_attr, parse_attr_expr,
  parse_with, parse_filter, print,
}
use claude_code_aws_gateway.Scim.Filter.Split.{IsAscii}
use claude_code_aws_gateway.Scim.Filter.Scan.{
  IsName, IsValue, split_from-value, scan-space, split_from-name,
}

find_space-name :
    (attr s : Text) → All IsName attr → find_space (attr ++ b' ' ∷ s) ≡ some (attr, b' ' ∷ s)
unfolding find_space
find_space-name [] s n = refl
find_space-name (c ∷ attr) s n = rw (n.0.solid, find_space-name attr s n.1) refl

trim_end-solid : (s : Text) (c : ℕ) → is_whitespace c ≡ false → trim_end (s ++ c ∷ []) ≡ s ++ c ∷ []
unfolding trim_end
trim_end-solid [] c h = rw h refl
trim_end-solid (d ∷ s) c h = rw (trim_end-solid s c h) (cons_solid d s)
  where
    cons_solid : (d : ℕ) (s : Text) → trim_cons d (s ++ c ∷ []) ≡ d ∷ s ++ c ∷ []
    cons_solid d [] = refl
    cons_solid d (e ∷ s) = refl

strip_quote-value : (val : Text) → strip_quote (val ++ quote ∷ []) ≡ some val
unfolding strip_quote
strip_quote-value [] = refl
strip_quote-value (c ∷ []) = refl
strip_quote-value (c ∷ d ∷ val) = rw (strip_quote-value (d ∷ val)) refl

unescape-value : (val : Text) → All IsValue val → unescape val ≡ val
unfolding unescape
unescape-value [] a = refl
unescape-value (c ∷ []) a = refl
unescape-value (c ∷ d ∷ val) a =
    let plain = a.1.0.plain in ground (arith, unescape-value (d ∷ val) a.1)

value-IsAscii : (val : Text) → All IsValue val → All IsAscii (val ++ quote ∷ [])
unfolding IsAscii
value-IsAscii [] a = (omega arith, tt)
value-IsAscii (c ∷ val) a = (a.0.ascii, value-IsAscii val a.1)

line-IsAscii : (attr s : Text) → All IsName attr → All IsAscii s → All IsAscii (attr ++ s)
line-IsAscii [] s n a = a
line-IsAscii (c ∷ attr) s n a = (n.0.ascii, line-IsAscii attr s n.1 a)

-- What follows the attribute: an operator of two letters, and the value in quotes.
abbrev rest_of : ℕ → ℕ → Text → Text
rest_of o p val = b' ' ∷ o ∷ p ∷ b' ' ∷ quote ∷ val ++ quote ∷ []

split_from-rest :
    (o p : ℕ) (val : Text)
    → IsName o
    → IsName p
    → lower o ≢ b'a'
    → All IsValue val
    → split_from false (rest_of o p val) ≡ whole
unfolding split_from IsAscii
split_from-rest o p val name_o name_p other a =
    let quoted_value : split_from false (quote ∷ val ++ quote ∷ []) ≡ whole =
      rw (split_from-value val a) refl in
    let ascii = value-IsAscii val a in
    let tail =
      scan-space quote (val ++ quote ∷ []) (split_from false (quote ∷ val ++ quote ∷ []))
        (λ e. ground arith) (omega arith, (omega arith, ascii)) quoted_value in
    let middle =
      split_from-name (o ∷ p ∷ []) (b' ' ∷ quote ∷ val ++ quote ∷ []) (name_o, (name_p, tt))
        (name_o.ascii, (name_p.ascii, (omega arith, (omega arith, ascii)))) tail in
    scan-space o (p ∷ b' ' ∷ quote ∷ val ++ quote ∷ [])
      (split_from false (o ∷ p ∷ b' ' ∷ quote ∷ val ++ quote ∷ [])) other
      (omega arith, (name_o.ascii, (name_p.ascii, (omega arith, (omega arith, ascii))))) middle

parse_comp_value-value :
    (val : Text) → All IsValue val → parse_comp_value (quote ∷ val ++ quote ∷ []) ≡ ok val
unfolding parse_comp_value trim
parse_comp_value-value val a =
    let line = quote ∷ val ++ quote ∷ [] in
    let is : trim line ≡ line = unfold trim trim_start in trim_end-solid (quote ∷ val) quote refl in
    rw (parse_comp_value, is) (quoted_line val a)
  where
    quoted_line : (v : Text) → All IsValue v → parse_quoted (quote ∷ v ++ quote ∷ []) ≡ ok v
    quoted_line v b = rw (strip_quote-value v) (ap ok (unescape-value v b))

append_assoc : (xs ys zs : Text) → (xs ++ ys) ++ zs ≡ xs ++ (ys ++ zs)
append_assoc [] ys zs = refl
append_assoc (x ∷ xs) ys zs = cc (append_assoc xs ys zs)

trim-line :
    (c : ℕ) (s : Text) → is_whitespace c ≡ false → trim (c ∷ s ++ quote ∷ []) ≡ c ∷ s ++ quote ∷ []
unfolding trim trim_start
trim-line c s solid = rw solid (trim_end-solid (c ∷ s) quote refl)

-- A comparison as `Display` writes it.
abbrev comparison : ℕ → ℕ → Text → Text → Text
comparison o p attr val = attr ++ rest_of o p val

trim-comparison :
    (o p c : ℕ) (attr val : Text)
    → IsName c
    → trim (comparison o p (c ∷ attr) val) ≡ comparison o p (c ∷ attr) val
trim-comparison o p c attr val n =
    let shape : comparison o p (c ∷ attr) val
        ≡ c ∷ (attr ++ b' ' ∷ o ∷ p ∷ b' ' ∷ quote ∷ val) ++ quote ∷ [] =
      ap (λ t. c ∷ t) (sym (append_assoc attr (b' ' ∷ o ∷ p ∷ b' ' ∷ quote ∷ val) (quote ∷ []))) in
    rw shape (trim-line c (attr ++ b' ' ∷ o ∷ p ∷ b' ' ∷ quote ∷ val) n.solid)

trim_start-space : (c : ℕ) (s : Text) → is_whitespace c ≡ false → trim_start (b' ' ∷ c ∷ s) ≡ c ∷ s
unfolding trim_start
trim_start-space c s h = rw h refl

trim-space : (val : Text) → trim (b' ' ∷ quote ∷ val ++ quote ∷ []) ≡ quote ∷ val ++ quote ∷ []
unfolding trim trim_start
trim-space val = trim_end-solid (quote ∷ val) quote refl

parse_op-value :
    (attr : Text) (o p : ℕ) (val : Text)
    → All IsValue val
    → parse_op attr (some (o ∷ p ∷ [], b' ' ∷ quote ∷ val ++ quote ∷ []))
      ≡ by_operator attr (to_lower (o ∷ p ∷ [])) val
parse_op-value attr o p val a =
    rw (trim-space val) (ap (with_value attr (o ∷ p ∷ [])) (parse_comp_value-value val a))

parse_attr_expr-comparison :
    (o p c : ℕ) (attr val : Text)
    → IsName o
    → IsName p
    → All IsName (c ∷ attr)
    → All IsValue val
    → parse_attr_expr (comparison o p (c ∷ attr) val)
      ≡ by_operator (c ∷ attr) (to_lower (o ∷ p ∷ [])) val
unfolding parse_attr_expr
parse_attr_expr-comparison o p c attr val name_o name_p n a =
    let tail = b' ' ∷ quote ∷ val ++ quote ∷ [] in
    ap (λ t. parse_attr (find_space t)) (trim-comparison o p c attr val n.0)
    ∙ ap parse_attr (find_space-name (c ∷ attr) (o ∷ p ∷ tail) n)
    ∙ ap (λ t. parse_op (c ∷ attr) (find_space t)) (trim_start-space o (p ∷ tail) name_o.solid)
    ∙ ap (parse_op (c ∷ attr))
        (find_space-name (o ∷ p ∷ []) (quote ∷ val ++ quote ∷ []) (name_o, (name_p, tt)))
    ∙ parse_op-value (c ∷ attr) o p val a

rest-IsAscii :
    (o p : ℕ) (val : Text) → IsName o → IsName p → All IsValue val → All IsAscii (rest_of o p val)
unfolding IsAscii
rest-IsAscii o p val name_o name_p a =
    (omega arith, (name_o.ascii, (name_p.ascii, (omega arith, (omega arith, value-IsAscii val a)))))

parse_filter-comparison :
    (o p c : ℕ) (attr val : Text)
    → IsName o
    → IsName p
    → lower o ≢ b'a'
    → All IsName (c ∷ attr)
    → All IsValue val
    → parse_filter (comparison o p (c ∷ attr) val)
      ≡ by_operator (c ∷ attr) (to_lower (o ∷ p ∷ [])) val
unfolding parse_filter parse_with split_and
parse_filter-comparison o p c attr val name_o name_p other n a =
    let line = comparison o p (c ∷ attr) val in
    let unsplit : split_and line ≡ whole =
      split_from-name (c ∷ attr) (rest_of o p val) n
        (line-IsAscii (c ∷ attr) (rest_of o p val) n (rest-IsAscii o p val name_o name_p a))
        (split_from-rest o p val name_o name_p other a) in
    rw (trim-comparison o p c attr val n.0, unsplit)
      (ap parse_attr_expr (trim-comparison o p c attr val n.0)
        ∙ parse_attr_expr-comparison o p c attr val name_o name_p n a)

-- A comparison of a named attribute with a value that needs no escapes.
abbrev pub IsComparison : ScimFilter → Type 0
IsComparison (equals attr val) = (attr ≢ []) × (All IsName attr × All IsValue val)
IsComparison (contains attr val) = (attr ≢ []) × (All IsName attr × All IsValue val)
IsComparison (starts_with attr val) = (attr ≢ []) × (All IsName attr × All IsValue val)
IsComparison (conj l r) = ⊥

pub letter : (c : ℕ) → b'a' < c → c ≤ b'z' → IsName c
letter c h k = record {
  ascii = unfold IsAscii in omega arith;
  solid = ground arith;
  plain = ground arith;
}

-- Printing a comparison and parsing the text gives the comparison back, where the attribute is made
-- of ASCII characters without white space and quotes, and the value of ASCII characters without
-- quotes.
pub parse_filter-print : (f : ScimFilter) → IsComparison f → parse_filter (print f) ≡ ok f
unfolding print to_lower text_beq
parse_filter-print (equals [] val) (some_attr, k) = absurd (some_attr refl)
parse_filter-print (equals (c ∷ attr) val) (some_attr, k) =
    parse_filter-comparison b'e' b'q' c attr val (letter b'e' (omega arith) (omega arith))
      (letter b'q' (omega arith) (omega arith)) (λ e. ground arith) k.0 k.1
parse_filter-print (contains [] val) (some_attr, k) = absurd (some_attr refl)
parse_filter-print (contains (c ∷ attr) val) (some_attr, k) =
    parse_filter-comparison b'c' b'o' c attr val (letter b'c' (omega arith) (omega arith))
      (letter b'o' (omega arith) (omega arith)) (λ e. ground arith) k.0 k.1
parse_filter-print (starts_with [] val) (some_attr, k) = absurd (some_attr refl)
parse_filter-print (starts_with (c ∷ attr) val) (some_attr, k) =
    parse_filter-comparison b's' b'w' c attr val (letter b's' (omega arith) (omega arith))
      (letter b'w' (omega arith) (omega arith)) (λ e. ground arith) k.0 k.1
parse_filter-print (conj l r) k = elim k [ ]
