-- ===== src/Prelude/Assoc.antt =====
-- `HashMap` as an association list with one entry for each key. The order of the list stands for
-- the order in which the map happens to be iterated.
use Prim.Native.Nat.{◌+◌, ◌≤◌}
use mathlib.Core.Path.{◌≡◌, refl}
use mathlib.Core.Logic.{inl, inr}
use mathlib.Core.Bool.{Bool}
use mathlib.Core.List.{List, [], ◌∷◌}
use mathlib.Core.Option.{Option, none, some}
use native.Mathlib.Omega.{arith}
use claude_code_aws_gateway.Prelude.Tests.{Eq, ◌==◌, Bool-cases, if◌then◌else◌}
use claude_code_aws_gateway.Prelude.Lists.{length, retain}

abbrev pub Assoc {ℓ κ} : Type ℓ → Type κ → Type (ℓ ⊔ κ)
Assoc K V = List (K × V)

module _ {ℓ κ} {K : Type ℓ} {V : Type κ} ⦃e : Eq K⦄ where
  -- `HashMap::get`
  unfoldable pub lookup : K → Assoc K V → Option V
  lookup k [] = none
  lookup k ((j, v) ∷ m) = let rest = lookup k m in if j == k then some v else rest

  -- `HashMap::insert`
  unfoldable pub insert : K → V → Assoc K V → Assoc K V
  insert k v [] = (k, v) ∷ []
  insert k v ((j, w) ∷ m) = let rest = insert k v m in if j == k then (k, v) ∷ m else (j, w) ∷ rest

  -- `HashMap::remove`
  unfoldable pub remove : K → Assoc K V → Assoc K V
  remove k [] = []
  remove k ((j, v) ∷ m) = let rest = remove k m in if j == k then rest else (j, v) ∷ rest

  pub lookup-insert :
      (k j : K) (new : V) (m : Assoc K V)
      → lookup j (insert k new m) ≡ (if k == j then some new else lookup j m)
  unfolding insert lookup
  lookup-insert k j new [] = refl
  lookup-insert k j new ((first, old) ∷ rest) =
      ground
        (arith, lookup-insert k j new rest, e.beq_iff first k, e.beq_iff first j, e.beq_iff k j)

  pub lookup-remove :
      (k j : K) (m : Assoc K V) → lookup j (remove k m) ≡ (if k == j then none else lookup j m)
  unfolding lookup remove
  lookup-remove k j [] = ground arith
  lookup-remove k j ((i, w) ∷ m) =
      ground (arith, lookup-remove k j m, e.beq_iff k j, e.beq_iff i k, e.beq_iff i j)

  pub length-insert : (k : K) (v : V) (m : Assoc K V) → length (insert k v m) ≤ length m + 1
  unfolding insert
  length-insert k v [] = omega arith
  length-insert k v ((j, w) ∷ m) = ground (arith, length-insert k v m)

  -- Overwriting a key adds no entry.
  pub length-insert_mem :
      (k : K) (v : V) (m : Assoc K V) (w : V)
      → lookup k m ≡ some w
      → length (insert k v m) ≡ length m
  unfolding insert lookup
  length-insert_mem k v [] w h = ground arith
  length-insert_mem k v ((j, u) ∷ m) w h = ground (arith, length-insert_mem k v m w)

  pub length-remove : (k : K) (m : Assoc K V) → length (remove k m) ≤ length m
  unfolding remove
  length-remove k [] = omega arith
  length-remove k ((j, w) ∷ m) = ground (arith, length-remove k m)

  -- Removing a key that is there frees an entry.
  pub length-remove_mem :
      (k : K) (m : Assoc K V) (w : V) → lookup k m ≡ some w → length (remove k m) + 1 ≤ length m
  unfolding remove lookup
  length-remove_mem k [] w h = ground arith
  length-remove_mem k ((j, u) ∷ m) w h = ground (arith, length-remove_mem k m w, length-remove k m)

-- `HashMap::retain` and the update of every value in place.
module _ {ℓ κ} {K : Type ℓ} {V : Type κ} where
  unfoldable pub retain_values : (V → Bool) → Assoc K V → Assoc K V
  retain_values p = retain (λ (kv : K × V). p kv.1)

  unfoldable pub map_values {μ} : {W : Type μ} → (V → W) → Assoc K V → Assoc K W
  map_values f [] = []
  map_values f ((k, v) ∷ m) = (k, f v) ∷ map_values f m

abbrev pub filter_option {ℓ} : {A : Type ℓ} → (A → Bool) → Option A → Option A
filter_option p none = none
filter_option p (some a) = if p a then some a else none

abbrev pub map_option {ℓ κ} : {A : Type ℓ} {B : Type κ} → (A → B) → Option A → Option B
map_option f none = none
map_option f (some a) = some (f a)

pub lookup-map_values {ℓ κ μ} :
    {K : Type ℓ} {V : Type κ} {W : Type μ} ⦃e : Eq K⦄ (f : V → W) (k : K) (m : Assoc K V)
    → lookup k (map_values f m) ≡ map_option f (lookup k m)
unfolding lookup map_values
lookup-map_values f k [] = refl
lookup-map_values f k ((j, v) ∷ m) = elim (Bool-cases (j == k)) [
  | inl h ↦ rw h refl
  | inr h ↦ rw h (lookup-map_values f k m)
]

-- One entry for each key, which every operation of a `HashMap` keeps.
module _ {ℓ κ} {K : Type ℓ} {V : Type κ} ⦃e : Eq K⦄ where
  unfoldable pub Unique : Assoc K V → Type κ
  Unique [] = Unit
  Unique ((k, v) ∷ m) = (lookup k m ≡ none) × Unique m

  pub insert-Unique : (k : K) (v : V) (m : Assoc K V) → Unique m → Unique (insert k v m)
  unfolding Unique insert
  insert-Unique k v [] u = (unfold lookup in refl, tt)
  insert-Unique k v ((j, w) ∷ m) u =
      ground (arith, e.beq_iff j k, e.beq_iff k j, lookup-insert k j v m, insert-Unique k v m)

  pub remove-Unique : (k : K) (m : Assoc K V) → Unique m → Unique (remove k m)
  unfolding Unique remove
  remove-Unique k [] u = u
  remove-Unique k ((j, w) ∷ m) u =
      ground (arith, e.beq_iff j k, e.beq_iff k j, lookup-remove k j m, remove-Unique k m)

  pub lookup-retain_values :
      (p : V → Bool) (k : K) (m : Assoc K V)
      → Unique m
      → lookup k (retain_values p m) ≡ filter_option p (lookup k m)
  unfolding Unique lookup retain_values
  lookup-retain_values p k [] u = refl
  lookup-retain_values p k ((j, w) ∷ m) u =
      ground (arith, e.beq_iff j k, lookup-retain_values p k m)

  pub retain_values-Unique : (p : V → Bool) (m : Assoc K V) → Unique m → Unique (retain_values p m)
  unfolding Unique retain_values
  retain_values-Unique p [] u = u
  retain_values-Unique p ((j, w) ∷ m) u =
      ground (arith, lookup-retain_values p j m, retain_values-Unique p m)

pub Unique-nil {ℓ κ} : (K : Type ℓ) (V : Type κ) ⦃e : Eq K⦄ → Unique {K = K} {V = V} []
unfolding Unique
Unique-nil K V = tt
