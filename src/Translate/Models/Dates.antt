-- ===== src/Translate/Models/Dates.antt =====
-- `strip_date_suffix` of src/translate/models.rs: what it strips, and where it panics.
use claude_code_aws_gateway.Prelude.{
  ℕ, zero, suc, ◌+◌, ◌-◌, ◌<◌, ◌≡◌, ◌⊎◌, inl, inr, refl, ap, ◌∙◌, true, Option, none, some, [], ◌∷◌,
  ◌++◌, arith, leb, length, Bool-cases, Option-cases, if◌then◌else◌,
}
use claude_code_aws_gateway.Prelude.Text.{Text, prepend, char_len, byte_len}
use claude_code_aws_gateway.Translate.Models.{bytes_at, all_digits, is_date, strip_date_suffix}

pub byte_len-append : (a b : Text) → byte_len (a ++ b) ≡ byte_len a + byte_len b
byte_len-append [] b = omega arith
byte_len-append (c ∷ a) b = omega (arith, byte_len-append a b)

digits-len : (d : Text) → all_digits d ≡ true → byte_len d ≡ length d
digits-len [] h = refl
digits-len (c ∷ d) h = ground (arith, digits-len d)

prepend-some :
    (c : ℕ) (o : Option (Text × Text)) (a b : Text)
    → prepend c o ≡ some (a, b)
    → (a' : Text) × (o ≡ some (a', b)) × (c ∷ a' ≡ a)
prepend-some c none a b h = absurd (ground arith)
prepend-some c (some (x, y)) a b h = (x, ground arith, ground arith)

bytes_at-split :
    (n : ℕ) (s a b : Text) → bytes_at n s ≡ some (a, b) → (s ≡ a ++ b) × (byte_len a ≡ n)
unfolding bytes_at
bytes_at-split zero s a b h =
    let empty : [] ≡ a = ground arith in
    let rest : s ≡ b = ground arith in rw (← empty) (rest, refl)
bytes_at-split (suc n) [] a b h = absurd (ground arith)
bytes_at-split (suc n) (c ∷ s) a b h = elim (Bool-cases (leb (char_len c) (suc n))) [
  | inr e ↦ absurd (ground arith)
  | inl e ↦
      let (a', found, is) = prepend-some c (bytes_at (suc n - char_len c) s) a b (ground arith) in
      let (whole, len) = bytes_at-split (suc n - char_len c) s a' b found in
      rw (← is) (cc whole, ground arith)
]

bytes_at-cons :
    (c m n : ℕ) (s : Text) → m ≡ char_len c + n → bytes_at m (c ∷ s) ≡ prepend c (bytes_at n s)
unfolding bytes_at
bytes_at-cons c zero n s e = absurd (ground arith)
bytes_at-cons c (suc m) n s e =
    let fits : leb (char_len c) (suc m) ≡ true = ground arith in
    let left : suc m - char_len c ≡ n = omega arith in rw (fits, left) refl

-- No character ends behind byte n of a text that starts with a longer one.
bytes_at-inside : (c n : ℕ) (s : Text) → 0 < n → n < char_len c → bytes_at n (c ∷ s) ≡ none
unfolding bytes_at
bytes_at-inside c zero s h k = absurd (omega arith)
bytes_at-inside c (suc n) s h k = ground arith

bytes_at-behind :
    (before : Text) (n c : ℕ) (s : Text)
    → 0 < n
    → n < char_len c
    → bytes_at (byte_len before + n) (before ++ (c ∷ s)) ≡ none
bytes_at-behind [] n c s h k =
    ap (λ m. bytes_at m (c ∷ s)) (omega arith) ∙ bytes_at-inside c n s h k
bytes_at-behind (d ∷ before) n c s h k =
    bytes_at-cons d (byte_len (d ∷ before) + n) (byte_len before + n) (before ++ (c ∷ s))
      (omega arith)
    ∙ ap (prepend d) (bytes_at-behind before n c s h k)

bytes_at-append : (a b : Text) → bytes_at (byte_len a) (a ++ b) ≡ some (a, b)
unfolding bytes_at
bytes_at-append [] b = refl
bytes_at-append (c ∷ a) b =
    bytes_at-cons c (byte_len (c ∷ a)) (byte_len a) (a ++ b) refl
    ∙ ap (prepend c) (bytes_at-append a b)

-- A date suffix: a dash and eight digits.
pub record IsDated (model stem : Text) : Type 0 where
  pub date : Text
  pub is : model ≡ stem ++ (b'-' ∷ date)
  pub eight : length date ≡ 8
  pub digits : all_digits date ≡ true

-- Where it does not panic, the function strips a dash and eight digits from the end of the id, or
-- returns it unchanged; an id that has such an end is always stripped.
pub strip_date-dated :
    (model stem : Text) → IsDated model stem → strip_date_suffix model ≡ some stem
unfolding strip_date_suffix
strip_date-dated model stem d =
    let nine : byte_len (b'-' ∷ d.date) ≡ 9 = omega (arith, digits-len d.date d.digits, d.eight) in
    let len = byte_len-append stem (b'-' ∷ d.date) in
    let long : leb 9 (byte_len (stem ++ (b'-' ∷ d.date))) ≡ true = ground arith in
    let at : byte_len (stem ++ (b'-' ∷ d.date)) - 9 ≡ byte_len stem = omega arith in
    rw (d.is, strip_date_suffix, long, at, bytes_at-append stem (b'-' ∷ d.date), d.digits) refl

dated :
    (model stem candidate : Text)
    → model ≡ stem ++ candidate
    → byte_len candidate ≡ 9
    → is_date candidate ≡ true
    → IsDated model stem
dated model stem [] is nine h = absurd (omega arith)
dated model stem (c ∷ d) is nine h =
    let dash : c ≡ b'-' = ground arith in
    let digits : all_digits d ≡ true = ground arith in
    record {
      date = d;
      is = is ∙ ap (λ x. stem ++ (x ∷ d)) dash;
      eight = ground (arith, digits-len d digits);
      digits = digits;
    }

pub strip_date-cases :
    (model stripped : Text)
    → strip_date_suffix model ≡ some stripped
    → (stripped ≡ model) ⊎ IsDated model stripped
unfolding strip_date_suffix
strip_date-cases model stripped h = elim (Bool-cases (leb 9 (byte_len model))) [
  | inr e ↦ inl (ground arith)
  | inl e ↦ elim (Option-cases (bytes_at (byte_len model - 9) model)) [
    | inl n ↦
        let h' : ◌≡◌ {A = Option Text} none (some stripped) = rw (e, n, strip_date_suffix) at h in
        absurd (cc)
    | inr (cut, at) ↦
        let (whole, len) = bytes_at-split (byte_len model - 9) model cut.0 cut.1 at in
        let h' : some (if is_date cut.1 then cut.0 else model) ≡ some stripped =
          rw (e, at, strip_date_suffix) at h in
        elim (Bool-cases (is_date cut.1)) [
          | inr no_date ↦ inl (ground arith)
          | inl a_date ↦
              let same : cut.0 ≡ stripped = ground arith in
              let nine = byte_len-append cut.0 cut.1 in
              inr (
                rw (← same)
                  (dated model cut.0 cut.1 whole (ground (arith, ap byte_len whole)) a_date))
        ]
  ]
]

-- An id whose ninth byte from the end is inside of a character makes the function panic.
pub strip_date-panics :
    (before after : Text) (c : ℕ)
    → byte_len after < 9
    → 9 < byte_len after + char_len c
    → strip_date_suffix (before ++ (c ∷ after)) ≡ none
unfolding strip_date_suffix
strip_date-panics before after c h k =
    let len : byte_len (before ++ (c ∷ after)) - 9
        ≡ byte_len before + (byte_len after + char_len c - 9) =
      omega (arith, byte_len-append before (c ∷ after)) in
    let long : leb 9 (byte_len (before ++ (c ∷ after))) ≡ true =
      ground (arith, byte_len-append before (c ∷ after)) in
    rw
      (
        long,
        len,
        bytes_at-behind before (byte_len after + char_len c - 9) c after (omega arith)
            (omega arith),
      )
      refl
