-- ===== src/Scim/Filter/Total.antt =====
-- `parse_filter` of src/scim/filter.rs always answers, and with ASCII input it does not panic.
use claude_code_aws_gateway.Prelude.{
  ℕ, zero, suc, ◌≤◌, ◌<◌, ◌≡◌, ◌≢◌, refl, sym, ap, ◌⊎◌, ◌∙◌, subst, true, false, Option, none, some,
  [], ◌∷◌, ◌++◌, arith, length, length-append, All, All-append_left, All-append_right, eqb,
  Bool-cases, Option-cases, inl, inr,
}
use claude_code_aws_gateway.Prelude.Text.{Text, codes, to_lower, eq_ignore_case, text_eq}
use claude_code_aws_gateway.Scim.Filter.{
  ScimFilter, FilterError, Parsed, ok, err, empty_expression, panicked, out_of_fuel, SplitAnd,
  panics, whole, parts, is_whitespace, is_nil, trim, trim_start, trim_end, trim_cons, find_space,
  split_and, parse_comp_value, parse_quoted, by_operator, with_value, parse_op, parse_attr,
  parse_attr_expr, both, parse_with, parse_filter, strip_quote, quote,
}
use claude_code_aws_gateway.Scim.Filter.Split.{split_and-SplitsAt, IsAscii, split_and-ascii, five}

-- A parser that neither panics nor runs out of steps.
abbrev pub Answers : {A : Type 0} → Parsed A → Type 0
Answers p = (p ≢ panicked) × (p ≢ out_of_fuel)

length-trim_start : (s : Text) → length (trim_start s) ≤ length s
unfolding trim_start
length-trim_start [] = omega arith
length-trim_start (c ∷ s) = ground (arith, length-trim_start s)

length-trim_cons : (c : ℕ) (t : Text) → length (trim_cons c t) ≤ suc (length t)
length-trim_cons c [] = ground arith
length-trim_cons c (d ∷ t) = omega arith

length-trim_end : (s : Text) → length (trim_end s) ≤ length s
unfolding trim_end
length-trim_end [] = omega arith
length-trim_end (c ∷ s) = omega (arith, length-trim_cons c (trim_end s), length-trim_end s)

length-trim : (s : Text) → length (trim s) ≤ length s
unfolding trim
length-trim s = omega (arith, length-trim_end (trim_start s), length-trim_start s)

module _ (P : ℕ → Type 0) where
  All-trim_start : (s : Text) → All P s → All P (trim_start s)
  unfolding trim_start
  All-trim_start [] a = tt
  All-trim_start (c ∷ s) a = elim (Bool-cases (is_whitespace c)) [
    | inl e ↦ rw e (All-trim_start s a.1)
    | inr e ↦ rw e a
  ]

  All-trim_cons : (c : ℕ) (t : Text) → P c → All P t → All P (trim_cons c t)
  All-trim_cons c [] h a = elim (Bool-cases (is_whitespace c)) [
    | inl e ↦ rw e tt
    | inr e ↦ rw e (h, tt)
  ]
  All-trim_cons c (d ∷ t) h a = (h, a)

  All-trim_end : (s : Text) → All P s → All P (trim_end s)
  unfolding trim_end
  All-trim_end [] a = tt
  All-trim_end (c ∷ s) a = All-trim_cons c (trim_end s) a.0 (All-trim_end s a.1)

  All-trim : (s : Text) → All P s → All P (trim s)
  unfolding trim
  All-trim s a = All-trim_end (trim_start s) (All-trim_start s a)

parse_quoted-Answers : (s : Text) → Answers (parse_quoted s)
parse_quoted-Answers [] = (λ h. ground arith, λ h. ground arith)
parse_quoted-Answers (c ∷ s) = elim (Bool-cases (eqb c quote)) [
  | inr e ↦ rw e (λ h. ground arith, λ h. ground arith)
  | inl e ↦ elim (Option-cases (strip_quote s)) [
    | inl n ↦ rw (e, n) (λ h. ground arith, λ h. ground arith)
    | inr (t, n) ↦ rw (e, n) (λ h. ground arith, λ h. ground arith)
  ]
]

parse_comp_value-Answers : (s : Text) → Answers (parse_comp_value s)
unfolding parse_comp_value
parse_comp_value-Answers s = elim (Bool-cases (eq_ignore_case (trim s) (codes "true"))) [
  | inl t ↦ rw t (λ h. ground arith, λ h. ground arith)
  | inr t ↦ elim (Bool-cases (eq_ignore_case (trim s) (codes "false"))) [
    | inl f ↦ rw (t, f) (λ h. ground arith, λ h. ground arith)
    | inr f ↦ rw (t, f) (parse_quoted-Answers (trim s))
  ]
]

by_operator-Answers : (attr op value : Text) → Answers (by_operator attr op value)
by_operator-Answers attr op value = (λ h. ground arith, λ h. ground arith)

with_value-Answers : (attr op : Text) (p : Parsed Text) → Answers p → Answers (with_value attr op p)
with_value-Answers attr op (ok value) a = by_operator-Answers attr (to_lower op) value
with_value-Answers attr op (err e) a = (λ h. ground arith, λ h. ground arith)
with_value-Answers attr op panicked a = absurd (a.0 refl)
with_value-Answers attr op out_of_fuel a = absurd (a.1 refl)

parse_op-Answers : (attr : Text) (o : Option (Text × Text)) → Answers (parse_op attr o)
parse_op-Answers attr none = (λ h. ground arith, λ h. ground arith)
parse_op-Answers attr (some (op, rest)) = elim (Bool-cases (is_nil (trim rest))) [
  | inl e ↦ rw e (λ h. ground arith, λ h. ground arith)
  | inr e ↦ rw e (
      with_value-Answers attr op (parse_comp_value (trim rest))
        (parse_comp_value-Answers (trim rest)))
]

parse_attr-Answers : (o : Option (Text × Text)) → Answers (parse_attr o)
parse_attr-Answers none = (λ h. ground arith, λ h. ground arith)
parse_attr-Answers (some ([], rest)) = (λ h. ground arith, λ h. ground arith)
parse_attr-Answers (some (c ∷ attr, rest)) =
    parse_op-Answers (c ∷ attr) (find_space (trim_start rest))

both-fuel : (l r : Parsed ScimFilter) → l ≢ out_of_fuel → r ≢ out_of_fuel → both l r ≢ out_of_fuel
both-fuel (ok l) (ok r) a b h = ground arith
both-fuel (ok l) (err e) a b h = ground arith
both-fuel (ok l) panicked a b h = ground arith
both-fuel (ok l) out_of_fuel a b h = b refl
both-fuel (err e) r a b h = ground arith
both-fuel panicked r a b h = ground arith
both-fuel out_of_fuel r a b h = a refl

both-panicked : (l r : Parsed ScimFilter) → l ≢ panicked → r ≢ panicked → both l r ≢ panicked
both-panicked (ok l) (ok r) a b h = ground arith
both-panicked (ok l) (err e) a b h = ground arith
both-panicked (ok l) panicked a b h = b refl
both-panicked (ok l) out_of_fuel a b h = ground arith
both-panicked (err e) r a b h = ground arith
both-panicked panicked r a b h = a refl
both-panicked out_of_fuel r a b h = ground arith

parts_shorter :
    (t l r : Text) → split_and t ≡ parts l r → (length l < length t) × (length r < length t)
parts_shorter t l r h =
    let a = split_and-SplitsAt t l r h in
    let whole = ap length a.is ∙ length-append l (a.mid ++ r) in
    let tail = length-append a.mid r in
    let mid = five a.mid a.conjunction in (omega arith, omega arith)

parts-IsAscii :
    (t l r : Text) → split_and t ≡ parts l r → All IsAscii t → All IsAscii l × All IsAscii r
parts-IsAscii t l r h a =
    let at = split_and-SplitsAt t l r h in
    let a' : All IsAscii (l ++ (at.mid ++ r)) = subst (All IsAscii) at.is a in
    (
      All-append_left IsAscii l _ a',
      All-append_right IsAscii at.mid r (All-append_right IsAscii l _ a'),
    )

SplitAnd-cases :
    (r : SplitAnd) → (r ≡ panics) ⊎ (r ≡ whole) ⊎ ((l : Text) × (k : Text) × (r ≡ parts l k))
SplitAnd-cases panics = inl refl
SplitAnd-cases whole = inr (inl refl)
SplitAnd-cases (parts l k) = inr (inr (l, k, refl))

module _ (fuel : ℕ) (s : Text) (some_text : is_nil (trim s) ≡ false) where
  parse_with-panics : split_and (trim s) ≡ panics → parse_with (suc fuel) s ≡ panicked
  unfolding parse_with
  parse_with-panics c = rw (some_text, c) refl

  parse_with-whole : split_and (trim s) ≡ whole → parse_with (suc fuel) s ≡ parse_attr_expr (trim s)
  unfolding parse_with
  parse_with-whole c = rw (some_text, c) refl

  parse_with-parts :
      (l r : Text)
      → split_and (trim s) ≡ parts l r
      → parse_with (suc fuel) s ≡ both (parse_with fuel (trim l)) (parse_with fuel (trim r))
  unfolding parse_with
  parse_with-parts l r c = rw (some_text, c) refl

parse_attr_expr-Answers : (s : Text) → Answers (parse_attr_expr s)
unfolding parse_attr_expr
parse_attr_expr-Answers s = parse_attr-Answers (find_space (trim s))

parse_with-empty :
    (fuel : ℕ) (s : Text) → is_nil (trim s) ≡ true → parse_with (suc fuel) s ≡ err empty_expression
unfolding parse_with
parse_with-empty fuel s n = rw n refl

parse_with-fuel : (fuel : ℕ) (s : Text) → length s < fuel → parse_with fuel s ≢ out_of_fuel
parse_with-fuel zero s h e = omega arith
parse_with-fuel (suc fuel) s h e = elim (Bool-cases (is_nil (trim s))) [
  | inl n ↦ let e' = parse_with-empty fuel s n in ground arith
  | inr n ↦ elim (SplitAnd-cases (split_and (trim s))) [
    | inl c ↦ let e' = parse_with-panics fuel s n c in ground arith
    | inr (inl c) ↦ (parse_attr_expr-Answers (trim s)).1 (sym (parse_with-whole fuel s n c) ∙ e)
    | inr (inr (l, r, c)) ↦
        let (shorter_l, shorter_r) = parts_shorter (trim s) l r c in
        both-fuel _ _ (parse_with-fuel fuel (trim l) (omega (arith, length-trim l, length-trim s)))
          (parse_with-fuel fuel (trim r) (omega (arith, length-trim r, length-trim s)))
          (sym (parse_with-parts fuel s n l r c) ∙ e)
  ]
]

parse_with-ascii : (fuel : ℕ) (s : Text) → All IsAscii s → parse_with fuel s ≢ panicked
unfolding parse_with
parse_with-ascii zero s a e = ground arith
parse_with-ascii (suc fuel) s a e = elim (Bool-cases (is_nil (trim s))) [
  | inl n ↦ let e' = parse_with-empty fuel s n in ground arith
  | inr n ↦ elim (SplitAnd-cases (split_and (trim s))) [
    | inl c ↦ split_and-ascii (trim s) (All-trim IsAscii s a) c
    | inr (inl c) ↦ (parse_attr_expr-Answers (trim s)).0 (sym (parse_with-whole fuel s n c) ∙ e)
    | inr (inr (l, r, c)) ↦
        let (al, ar) = parts-IsAscii (trim s) l r c (All-trim IsAscii s a) in
        both-panicked _ _ (parse_with-ascii fuel (trim l) (All-trim IsAscii l al))
          (parse_with-ascii fuel (trim r) (All-trim IsAscii r ar))
          (sym (parse_with-parts fuel s n l r c) ∙ e)
  ]
]

-- The steps that the parser is given are always enough.
pub parse_filter_total : (s : Text) → parse_filter s ≢ out_of_fuel
unfolding parse_filter
parse_filter_total s = parse_with-fuel (suc (length s)) s (omega arith)

-- A filter of ASCII characters is parsed or refused with an error, and never panics.
pub parse_filter-ascii :
    (s : Text)
    → All IsAscii s
    → ((f : ScimFilter) × (parse_filter s ≡ ok f)) ⊎ ((e : FilterError) × (parse_filter s ≡ err e))
unfolding parse_filter
parse_filter-ascii s a = settled (parse_filter s) refl
  where
    settled :
        (p : Parsed ScimFilter)
        → parse_filter s ≡ p
        → ((f : ScimFilter) × (parse_filter s ≡ ok f))
          ⊎ ((e : FilterError) × (parse_filter s ≡ err e))
    settled (ok f) e = inl (f, e)
    settled (err x) e = inr (x, e)
    settled panicked e = absurd (parse_with-ascii (suc (length s)) s a e)
    settled out_of_fuel e = absurd (parse_filter_total s e)
