-- ===== src/Prelude/Elem.antt =====
-- Membership in a list, with the place kept.
use mathlib.Core.Path.{◌≡◌, refl}
use mathlib.Core.Logic.{◌⊎◌, inl, inr}
use mathlib.Core.Bool.{Bool, true, false}
use mathlib.Core.List.{List, [], ◌∷◌, ◌++◌}
use mathlib.Core.Option.{none, some}
use native.Mathlib.Omega.{arith}
use claude_code_aws_gateway.Prelude.Tests.{Bool-cases}
use claude_code_aws_gateway.Prelude.Lists.{retain, any, find}

-- An element of a list, at a place.
pub data Elem {ℓ} {A : Type ℓ} (x : A) : List A → Type ℓ where
  here : {xs : List A} → Elem x (x ∷ xs)
  there : {y : A} {xs : List A} → Elem x xs → Elem x (y ∷ xs)

module _ {ℓ} {A : Type ℓ} where
  pub find-Elem : (p : A → Bool) (xs : List A) (x : A) → find p xs ≡ some x → Elem x xs
  find-Elem p [] x h = absurd (ground arith)
  find-Elem p (y ∷ xs) x h = elim (Bool-cases (p y)) [
    | inl e ↦ let same : y ≡ x = ground arith in rw same here
    | inr e ↦ there (find-Elem p xs x (ground arith))
  ]

  pub find-none : (p : A → Bool) (xs : List A) → find p xs ≡ none → any p xs ≡ false
  find-none p [] h = refl
  find-none p (y ∷ xs) h = ground (arith, find-none p xs)

  pub any-find : (p : A → Bool) (xs : List A) → any p xs ≡ false → find p xs ≡ none
  any-find p [] h = refl
  any-find p (y ∷ xs) h = ground (arith, any-find p xs)

  pub any-Elem : (p : A → Bool) (xs : List A) (x : A) → Elem x xs → p x ≡ true → any p xs ≡ true
  any-Elem p [] x m h = elim m [ ]
  any-Elem p (y ∷ xs) x here h = ground arith
  any-Elem p (y ∷ xs) x (there m) h = ground (arith, any-Elem p xs x m h)

  pub Elem-cases : {x y : A} {xs : List A} → Elem x (y ∷ xs) → (y ≡ x) ⊎ Elem x xs
  Elem-cases here = inl refl
  Elem-cases (there m) = inr m

  pub retain-Elem :
      (p : A → Bool) (xs : List A) (x : A) → Elem x (retain p xs) → Elem x xs × (p x ≡ true)
  retain-Elem p [] x m = elim m [ ]
  retain-Elem p (y ∷ xs) x m = elim (Bool-cases (p y)) [
    | inl e ↦ elim (Elem-cases (rw e at m)) [
      | inl same ↦ rw (← same) (here, e)
      | inr rest ↦ let (r, h) = retain-Elem p xs x rest in (there r, h)
    ]
    | inr e ↦ let (r, h) = retain-Elem p xs x (rw e at m) in (there r, h)
  ]

  pub Elem-append_left : (x : A) (xs ys : List A) → Elem x xs → Elem x (xs ++ ys)
  Elem-append_left x [] ys m = elim m [ ]
  Elem-append_left x (y ∷ xs) ys here = here
  Elem-append_left x (y ∷ xs) ys (there m) = there (Elem-append_left x xs ys m)

  pub Elem-retain :
      (p : A → Bool) (xs : List A) (x : A) → Elem x xs → p x ≡ true → Elem x (retain p xs)
  Elem-retain p [] x m h = elim m [ ]
  Elem-retain p (y ∷ xs) x here h = rw h here
  Elem-retain p (y ∷ xs) x (there m) h = elim (Bool-cases (p y)) [
    | inl e ↦ rw e (there (Elem-retain p xs x m h))
    | inr e ↦ rw e (Elem-retain p xs x m h)
  ]
