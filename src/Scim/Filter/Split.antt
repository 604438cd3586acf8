-- ===== src/Scim/Filter/Split.antt =====
-- `split_and` of src/scim/filter.rs: where it splits, and for which texts it panics.
use claude_code_aws_gateway.Prelude.{
  ℕ, zero, suc, ◌-◌, ◌≤◌, ◌<◌, ◌≡◌, ◌≢◌, refl, sym, ap, ◌∙◌, Bool, true, false, not, ◌&&◌, none,
  some, [], ◌∷◌, ◌++◌, arith, ltb, eqb, length, take, drop, All, Bool-cases, Option-cases, inl, inr,
  if◌then◌else◌,
}
use claude_code_aws_gateway.Prelude.Text.{
  char_len, byte_len, Text, codes, text_beq_iff, to_lower, eq_ignore_case,
}
use claude_code_aws_gateway.Scim.Filter.{
  SplitAnd, panics, whole, parts, take_bytes, quote, extend, scan, split_from, split_and,
}

-- Whether one stands inside of quotes behind this text.
abbrev pub quoted : Bool → Text → Bool
quoted q [] = q
quoted q (c ∷ s) = quoted (if eqb c quote then not q else q) s

length-to_lower : (s : Text) → length (to_lower s) ≡ length s
unfolding to_lower
length-to_lower [] = refl
length-to_lower (c ∷ s) = cc (length-to_lower s)

pub five : (s : Text) → eq_ignore_case s (codes " and ") ≡ true → length s ≡ 5
unfolding eq_ignore_case
five s h =
    let same = (text_beq_iff (to_lower s) (to_lower (codes " and "))).0 h in
    sym (length-to_lower s) ∙ ap length same ∙ length-to_lower (codes " and ")

take_bytes-prefix : (n : ℕ) (s t : Text) → take_bytes n s ≡ some t → t ≡ take (length t) s
unfolding take_bytes
take_bytes-prefix zero s [] h = refl
take_bytes-prefix zero s (d ∷ t) h = absurd (ground arith)
take_bytes-prefix (suc n) [] t h = absurd (ground arith)
take_bytes-prefix (suc n) (c ∷ s) t h = elim (Option-cases (take_bytes (suc n - char_len c) s)) [
  | inl e ↦ absurd (ground arith)
  | inr (u, e) ↦
      let is : c ∷ u ≡ t = ground arith in
      rw (← is) (cc (take_bytes-prefix (suc n - char_len c) s u e))
]

take-drop : (n : ℕ) (s : Text) → take n s ++ drop n s ≡ s
take-drop zero s = refl
take-drop (suc n) [] = refl
take-drop (suc n) (c ∷ s) = cc (take-drop n s)

-- A text that is split at this place.
pub record SplitsAt (q : Bool) (s l r : Text) : Type 0 where
  pub mid : Text
  pub is : s ≡ l ++ (mid ++ r)
  pub conjunction : eq_ignore_case mid (codes " and ") ≡ true
  pub outside : quoted q l ≡ false

SplitsAt-extend :
    (q : Bool) (c : ℕ) (s l r : Text)
    → SplitsAt (if eqb c quote then not q else q) s l r
    → SplitsAt q (c ∷ s) (c ∷ l) r
SplitsAt-extend q c s l r a = record {
  mid = a.mid;
  is = cc a.is;
  conjunction = a.conjunction;
  outside = a.outside;
}

extend-parts :
    (c : ℕ) (next : SplitAnd) (l r : Text)
    → extend c next ≡ parts l r
    → (l' : Text) × (next ≡ parts l' r) × (c ∷ l' ≡ l)
extend-parts c panics l r h = absurd (ground arith)
extend-parts c whole l r h = absurd (ground arith)
extend-parts c (parts l' r') l r h = (l', ground arith, ground arith)

extend-panics : (c : ℕ) (next : SplitAnd) → extend c next ≡ panics → next ≡ panics
extend-panics c panics h = refl
extend-panics c whole h = absurd (ground arith)
extend-panics c (parts l r) h = absurd (ground arith)

extend-SplitsAt :
    (q : Bool) (c : ℕ) (s l r : Text) (next : SplitAnd)
    → ((l' : Text) → next ≡ parts l' r → SplitsAt (if eqb c quote then not q else q) s l' r)
    → extend c next ≡ parts l r
    → SplitsAt q (c ∷ s) l r
extend-SplitsAt q c s l r next found h =
    let (l', e, is) = extend-parts c next l r h in
    rw (← is) (SplitsAt-extend q c s l' r (found l' e))

scan-SplitsAt :
    (c : ℕ) (s l r : Text) (next : SplitAnd)
    → eqb c quote ≡ false
    → ((l' : Text) → next ≡ parts l' r → SplitsAt false s l' r)
    → scan c s next ≡ parts l r
    → SplitsAt false (c ∷ s) l r
scan-SplitsAt c s l r next plain found h = elim (Bool-cases (ltb (byte_len (c ∷ s)) 5)) [
  | inl short ↦ extend-SplitsAt false c s l r next found' (ground arith)
  | inr long ↦ elim (Option-cases (take_bytes 5 (c ∷ s))) [
    | inl inside ↦ absurd (ground arith)
    | inr (cand, e) ↦ elim (Bool-cases (eq_ignore_case cand (codes " and "))) [
      | inl and ↦
          let len = five cand and in
          let mid = take_bytes-prefix 5 (c ∷ s) cand e in
          let same : parts [] (drop 5 (c ∷ s)) ≡ parts l r = ground arith in
          let empty : [] ≡ l = ground arith in
          let rest : drop 5 (c ∷ s) ≡ r = ground arith in
          rw (← empty, ← rest)
            (record {
              mid = cand;
              is =
                  sym (take-drop 5 (c ∷ s))
                  ∙ ap (λ t. t ++ drop 5 (c ∷ s)) (sym (mid ∙ ap (λ n. take n (c ∷ s)) len));
              conjunction = and;
              outside = refl;
            })
      | inr other ↦ elim (Bool-cases (ltb 1 (char_len c) && ltb 5 (byte_len (c ∷ s)))) [
        | inl wide ↦ absurd (ground arith)
        | inr narrow ↦ extend-SplitsAt false c s l r next found' (ground arith)
      ]
    ]
  ]
]
  where
    found' : (l' : Text) → next ≡ parts l' r → SplitsAt (if eqb c quote then true else false) s l' r
    found' l' e = rw plain (found l' e)

split_from-SplitsAt : (q : Bool) (s l r : Text) → split_from q s ≡ parts l r → SplitsAt q s l r
unfolding split_from
split_from-SplitsAt q [] l r h = absurd (ground arith)
split_from-SplitsAt true (c ∷ s) l r h = elim (Bool-cases (eqb c quote)) [
  | inl e ↦
      extend-SplitsAt true c s l r (split_from false s)
        (λ l' k. rw e (split_from-SplitsAt false s l' r k)) (rw (e, split_from) at h)
  | inr e ↦
      extend-SplitsAt true c s l r (split_from true s)
        (λ l' k. rw e (split_from-SplitsAt true s l' r k)) (rw (e, split_from) at h)
]
split_from-SplitsAt false (c ∷ s) l r h = elim (Bool-cases (eqb c quote)) [
  | inl e ↦
      extend-SplitsAt false c s l r (split_from true s)
        (λ l' k. rw e (split_from-SplitsAt true s l' r k)) (rw (e, split_from) at h)
  | inr e ↦
      scan-SplitsAt c s l r (split_from false s) e (λ l' k. split_from-SplitsAt false s l' r k)
        (rw (e, split_from) at h)
]

-- Where the parser splits a filter, a text " and " stands in any case, outside of quotes, and the two
-- parts are what is before and behind it.
pub split_and-SplitsAt : (s l r : Text) → split_and s ≡ parts l r → SplitsAt false s l r
unfolding split_and
split_and-SplitsAt s l r h = split_from-SplitsAt false s l r h

unfoldable pub IsAscii : ℕ → Type 0
IsAscii c = c < 128

pub take_bytes_total : (n : ℕ) (s : Text) → All IsAscii s → n ≤ byte_len s → take_bytes n s ≢ none
unfolding take_bytes IsAscii
take_bytes_total zero s a h e = cc
take_bytes_total (suc n) [] a h e = omega arith
take_bytes_total (suc n) (c ∷ s) a h e = ground (arith, take_bytes_total n s a.1)

scan-ascii :
    (c : ℕ) (s : Text) (next : SplitAnd)
    → All IsAscii (c ∷ s)
    → next ≢ panics
    → scan c s next ≢ panics
unfolding IsAscii
scan-ascii c s next a fine h = elim (Bool-cases (ltb (byte_len (c ∷ s)) 5)) [
  | inl short ↦ fine (extend-panics c next (ground arith))
  | inr long ↦ elim (Option-cases (take_bytes 5 (c ∷ s))) [
    | inl inside ↦ take_bytes_total 5 (c ∷ s) a (ground arith) inside
    | inr (cand, e) ↦ elim (Bool-cases (eq_ignore_case cand (codes " and "))) [
      | inl and ↦ ground arith
      | inr other ↦
          fine (extend-panics c next (let thin : char_len c ≡ 1 = ground arith in ground arith))
    ]
  ]
]

pub split_from-ascii : (q : Bool) (s : Text) → All IsAscii s → split_from q s ≢ panics
unfolding split_from IsAscii
split_from-ascii q [] a h = cc
split_from-ascii true (c ∷ s) a h = elim (Bool-cases (eqb c quote)) [
  | inl e ↦ split_from-ascii false s a.1 (extend-panics c _ (rw (e, split_from) at h))
  | inr e ↦ split_from-ascii true s a.1 (extend-panics c _ (rw (e, split_from) at h))
]
split_from-ascii false (c ∷ s) a h = elim (Bool-cases (eqb c quote)) [
  | inl e ↦ split_from-ascii true s a.1 (extend-panics c _ (rw (e, split_from) at h))
  | inr e ↦
      scan-ascii c s (split_from false s) a (split_from-ascii false s a.1) (rw (e, split_from) at h)
]

pub split_and-ascii : (s : Text) → All IsAscii s → split_and s ≢ panics
unfolding split_and
split_and-ascii s a = split_from-ascii false s a

-- A character of several bytes right behind the quote of a short comparison makes the parser slice
-- inside of it and panic, whatever follows.
pub split_and-panics : (c : ℕ) (s : Text) → 128 ≤ c → split_and (codes "a eq \"" ++ c ∷ s) ≡ panics
unfolding split_and split_from take_bytes eq_ignore_case
split_and-panics c s h = ground arith
