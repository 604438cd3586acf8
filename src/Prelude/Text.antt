-- ===== src/Prelude/Text.antt =====
-- Texts that the source walks: the list of their code points. Rust's `str` is UTF-8, so the order
-- of two texts is that of their code points, and a search finds the same places.
use Prim.Native.Char.{code}
use Prim.Native.Nat.{ℕ, ◌+◌, ◌-◌}
use Prim.Native.String.{String}
use mathlib.Core.Path.{◌≡◌, refl}
use mathlib.Core.Logic.{◌↔◌}
use mathlib.Core.Bool.{Bool, true, false, ◌&&◌, ◌||◌}
use mathlib.Core.List.{List, [], ◌∷◌}
use mathlib.Core.Option.{Option, none, some}
use native.Mathlib.Omega.{arith}
use claude_code_aws_gateway.Prelude.Tests.{Eq, eqb, ltb, leb, if◌then◌else◌}
use claude_code_aws_gateway.Prelude.Lists.{length, drop}

abbrev pub Text : Type 0
Text = List ℕ

-- The code points of a literal.
abbrev pub codes : String → Text
codes String.[] = []
codes (String.◌∷◌ c s) = code c ∷ codes s

unfoldable pub text_beq : Text → Text → Bool
text_beq [] [] = true
text_beq [] (_ ∷ _) = false
text_beq (_ ∷ _) [] = false
text_beq (a ∷ s) (b ∷ t) = let rest = text_beq s t in if eqb a b then rest else false

text_beq-eq : (s t : Text) → text_beq s t ≡ true → s ≡ t
unfolding text_beq
text_beq-eq [] [] h = refl
text_beq-eq [] (b ∷ t) h = absurd (ground arith)
text_beq-eq (a ∷ s) [] h = absurd (ground arith)
text_beq-eq (a ∷ s) (b ∷ t) h = ground (arith, text_beq-eq s t)

text_beq_self : (s : Text) → text_beq s s ≡ true
unfolding text_beq
text_beq_self [] = refl
text_beq_self (a ∷ s) = ground (arith, text_beq_self s)

pub text_beq_iff : (s t : Text) → (text_beq s t ≡ true) ↔ (s ≡ t)
text_beq_iff s t = (text_beq-eq s t, λ e. rw e (text_beq_self t))

instance abbrev pub text_eq : Eq Text
text_eq = record { beq = text_beq; beq_iff = text_beq_iff }

-- `s < t`
unfoldable pub text_ltb : Text → Text → Bool
text_ltb [] [] = false
text_ltb [] (_ ∷ _) = true
text_ltb (_ ∷ _) [] = false
text_ltb (a ∷ s) (b ∷ t) =
    let rest = text_ltb s t in if ltb a b then true else if eqb a b then rest else false

-- `s.starts_with(p)`
unfoldable pub starts_with : Text → Text → Bool
starts_with s [] = true
starts_with [] (_ ∷ _) = false
starts_with (a ∷ s) (b ∷ p) = let rest = starts_with s p in if eqb a b then rest else false

-- `s.ends_with(p)`
unfoldable pub ends_with : Text → Text → Bool
unfolding text_beq
ends_with s p = leb (length p) (length s) && text_beq (drop (length s - length p) s) p

abbrev pub prepend : ℕ → Option (Text × Text) → Option (Text × Text)
prepend c none = none
prepend c (some (before, after)) = some (c ∷ before, after)

-- `s.find(p)` as the text before the first match and the text from it on.
unfoldable pub split_at : Text → Text → Option (Text × Text)
unfolding starts_with
split_at [] p = if starts_with [] p then some ([], []) else none
split_at (a ∷ s) p =
    let rest = prepend a (split_at s p) in if starts_with (a ∷ s) p then some ([], a ∷ s) else rest

-- `s.contains(p)`
unfoldable pub contains : Text → Text → Bool
unfolding split_at
contains s p = elim (split_at s p) [ none ↦ false | some _ ↦ true ]

-- `c.is_ascii_digit()`
abbrev pub is_digit : ℕ → Bool
is_digit c = leb b'0' c && leb c b'9'

-- `to_ascii_lowercase` of a character.
abbrev pub lower : ℕ → ℕ
lower c = if leb b'A' c && leb c b'Z' then c + 32 else c

unfoldable pub to_lower : Text → Text
to_lower [] = []
to_lower (c ∷ s) = lower c ∷ to_lower s

-- `s.eq_ignore_ascii_case(t)`
unfoldable pub eq_ignore_case : Text → Text → Bool
unfolding to_lower text_beq
eq_ignore_case s t = text_beq (to_lower s) (to_lower t)

-- `char::is_whitespace` among the ASCII characters.
abbrev pub is_space : ℕ → Bool
is_space c = eqb c b' ' || leb 9 c && leb c 13

-- `s.trim_start()`
unfoldable pub trim_start : Text → Text
trim_start [] = []
trim_start (c ∷ s) = let rest = trim_start s in if is_space c then rest else c ∷ s

-- `s.trim_end()`
unfoldable pub trim_end : Text → Text
trim_end [] = []
trim_end (c ∷ s) =
    let rest = trim_end s in
    elim rest [ [] ↦ (if is_space c then [] else c ∷ []) | d ∷ t ↦ c ∷ d ∷ t ]

unfoldable pub trim : Text → Text
unfolding trim_start trim_end
trim s = trim_end (trim_start s)

-- The number of bytes of a character.
abbrev pub char_len : ℕ → ℕ
char_len c = if ltb c 128 then 1 else if ltb c 2048 then 2 else if ltb c 65536 then 3 else 4

abbrev pub byte_len : Text → ℕ
byte_len [] = 0
byte_len (c ∷ s) = char_len c + byte_len s
