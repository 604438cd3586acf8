-- ===== src/Scim/Filter/Scan.antt =====
-- The search for " and " in src/scim/filter.rs over a name and over a quoted value.
use claude_code_aws_gateway.Prelude.{
  ℕ, suc, ◌<◌, ◌≡◌, ◌≢◌, refl, ap, ◌∙◌, true, false, some, [], ◌∷◌, ◌++◌, ◌-◌, arith, All, ltb, eqb,
  Bool-cases, Option-cases, inl, inr,
}
use claude_code_aws_gateway.Prelude.Text.{
  char_len, byte_len, Text, codes, text_beq, to_lower, lower, eq_ignore_case,
}
use claude_code_aws_gateway.Scim.Filter.{
  SplitAnd, whole, is_whitespace, take_bytes, quote, scan, split_from,
}
use claude_code_aws_gateway.Scim.Filter.Split.{IsAscii, take_bytes_total}

-- A character of an attribute name: ASCII, no white space and no quote.
pub record IsName (c : ℕ) : Type 0 where
  pub ascii : IsAscii c
  pub solid : is_whitespace c ≡ false
  pub plain : eqb c quote ≡ false

-- A character of a value: ASCII and no quote.
pub record IsValue (c : ℕ) : Type 0 where
  pub ascii : IsAscii c
  pub plain : eqb c quote ≡ false

pub split_from-value : (val : Text) → All IsValue val → split_from true (val ++ quote ∷ []) ≡ whole
unfolding split_from
split_from-value [] a = refl
split_from-value (c ∷ val) a = rw (a.0.plain, split_from-value val a.1) refl

take_bytes-head : (n c d : ℕ) (s t : Text) → take_bytes (suc n) (c ∷ s) ≡ some (d ∷ t) → c ≡ d
unfolding take_bytes
take_bytes-head n c d s t h = elim (Option-cases (take_bytes (suc n - char_len c) s)) [
  | inl e ↦ absurd (ground arith)
  | inr (u, e) ↦ ground arith
]

not_and :
    (c : ℕ) (s t : Text)
    → is_whitespace c ≡ false
    → take_bytes 5 (c ∷ s) ≡ some t
    → eq_ignore_case t (codes " and ") ≡ false
unfolding eq_ignore_case text_beq to_lower
not_and c s [] solid h = refl
not_and c s (d ∷ t) solid h =
    let same = take_bytes-head 4 c d s t h in
    let other : lower d ≢ 32 = λ e. ground arith in ground arith

-- Where no " and " starts, the scan goes on.
scan-whole :
    (c : ℕ) (s : Text) (next : SplitAnd)
    → All IsAscii (c ∷ s)
    → ((t : Text) → take_bytes 5 (c ∷ s) ≡ some t → eq_ignore_case t (codes " and ") ≡ false)
    → next ≡ whole
    → scan c s next ≡ whole
unfolding IsAscii
scan-whole c s next a never w = elim (Option-cases (take_bytes 5 (c ∷ s))) [
  | inl e ↦
      let short : byte_len (c ∷ s) < 5 = elim (Bool-cases (ltb (byte_len (c ∷ s)) 5)) [
        | inl k ↦ ground arith
        | inr k ↦ absurd (take_bytes_total 5 (c ∷ s) a (ground arith) e)
      ] in
      ground arith
  | inr (t, e) ↦
      let thin : char_len c ≡ 1 = let small = a.0 in ground arith in
      let other = never t e in ground arith
]

pub scan-name :
    (c : ℕ) (s : Text) (next : SplitAnd)
    → IsName c
    → All IsAscii (c ∷ s)
    → next ≡ whole
    → scan c s next ≡ whole
scan-name c s next n a w = scan-whole c s next a (λ t e. not_and c s t n.solid e) w

take_bytes-second :
    (c x d y : ℕ) (s t : Text) → take_bytes 5 (c ∷ x ∷ s) ≡ some (d ∷ y ∷ t) → c < 128 → x ≡ y
unfolding take_bytes
take_bytes-second c x d y s t h small = elim (Option-cases (take_bytes (5 - char_len c) (x ∷ s))) [
  | inl e ↦ absurd (ground arith)
  | inr (u, e) ↦
      let is : u ≡ y ∷ t = ground arith in
      let four : 5 - char_len c ≡ 4 = ground arith in
      take_bytes-head 3 x y s t (rw four at e ∙ ap some is)
]

-- A space that no "a" follows.
pub scan-space :
    (x : ℕ) (s : Text) (next : SplitAnd)
    → lower x ≢ b'a'
    → All IsAscii (b' ' ∷ x ∷ s)
    → next ≡ whole
    → scan b' ' (x ∷ s) next ≡ whole
unfolding eq_ignore_case text_beq to_lower
scan-space x s next other a w = scan-whole b' ' (x ∷ s) next a never w
  where
    never :
        (t : Text) → take_bytes 5 (b' ' ∷ x ∷ s) ≡ some t → eq_ignore_case t (codes " and ") ≡ false
    never [] e = refl
    never (d ∷ []) e = ground arith
    never (d ∷ y ∷ t) e =
        let same = take_bytes-second b' ' x d y s t e (omega arith) in
        let other' : lower y ≢ 97 = rw (← same) other in ground arith

pub split_from-name :
    (attr s : Text)
    → All IsName attr
    → All IsAscii (attr ++ s)
    → split_from false s ≡ whole
    → split_from false (attr ++ s) ≡ whole
unfolding split_from
split_from-name [] s n a h = h
split_from-name (c ∷ attr) s n a h =
    rw (n.0.plain, split_from)
      (scan-name c (attr ++ s) (split_from false (attr ++ s)) n.0 a
        (split_from-name attr s n.1 a.1 h))
