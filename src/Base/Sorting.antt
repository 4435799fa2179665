-- ===== src/Base/Sorting.antt =====
-- `Array.prototype.sort`, which is stable, over the test whether an entry may stand before another.
use Prim.Native.Nat.{ℕ, ◌+◌}
use mathlib.Core.Path.{◌≡◌, refl}
use mathlib.Core.Logic.{inl, inr}
use mathlib.Core.Bool.{Bool, true, false}
use mathlib.Core.List.{List, [], ◌∷◌}
use native.Mathlib.Omega.{arith}
use ai_task_orchestrator.Base.Tests.{if◌then◌else◌, Bool-cases}

-- How many entries pass a test.
abbrev pub tally {ℓ} : {A : Type ℓ} → (A → Bool) → List A → ℕ
tally p [] = 0
tally p (x ∷ xs) = (if p x then 1 else 0) + tally p xs

module _ {ℓ} {A : Type ℓ} (before : A → A → Bool) where
  abbrev pub insert : A → List A → List A
  insert x [] = x ∷ []
  insert x (y ∷ ys) = let rest = insert x ys in if before x y then x ∷ y ∷ ys else y ∷ rest

  abbrev pub sort : List A → List A
  sort [] = []
  sort (x ∷ xs) = insert x (sort xs)

  -- `y` may stand before all entries of a list.
  abbrev pub IsFirst : A → List A → Type 0
  IsFirst y [] = Unit
  IsFirst y (x ∷ xs) = (before y x ≡ true) × IsFirst y xs

  abbrev pub IsSorted : List A → Type 0
  IsSorted [] = Unit
  IsSorted (x ∷ xs) = IsFirst x xs × IsSorted xs

  tally-insert : (p : A → Bool) (x : A) (ys : List A) → tally p (insert x ys) ≡ tally p (x ∷ ys)
  tally-insert p x [] = refl
  tally-insert p x (y ∷ ys) = ground (arith, tally-insert p x ys)

  pub tally-sort : (p : A → Bool) (xs : List A) → tally p (sort xs) ≡ tally p xs
  tally-sort p [] = refl
  tally-sort p (x ∷ xs) = omega (arith, tally-insert p x (sort xs), tally-sort p xs)

  module _ (total : (x y : A) → before x y ≡ false → before y x ≡ true)
      (transitive : (x y z : A) → before x y ≡ true → before y z ≡ true → before x z ≡ true) where
    IsFirst-trans : (x y : A) (ys : List A) → before x y ≡ true → IsFirst y ys → IsFirst x ys
    IsFirst-trans x y [] h i = tt
    IsFirst-trans x y (z ∷ ys) h (j, i) = (transitive x y z h j, IsFirst-trans x y ys h i)

    IsFirst-insert :
        (x y : A) (ys : List A) → before y x ≡ true → IsFirst y ys → IsFirst y (insert x ys)
    IsFirst-insert x y [] h i = (h, tt)
    IsFirst-insert x y (z ∷ ys) h (j, i) = elim (Bool-cases (before x z)) [
      | inl t ↦ rw t (h, (j, i))
      | inr f ↦ rw f (j, IsFirst-insert x y ys h i)
    ]

    insert-IsSorted : (x : A) (ys : List A) → IsSorted ys → IsSorted (insert x ys)
    insert-IsSorted x [] s = (tt, tt)
    insert-IsSorted x (y ∷ ys) (i, s) = elim (Bool-cases (before x y)) [
      | inl t ↦ rw t ((t, IsFirst-trans x y ys t i), (i, s))
      | inr f ↦ rw f (IsFirst-insert x y ys (total x y f) i, insert-IsSorted x ys s)
    ]

    pub sort-IsSorted : (xs : List A) → IsSorted (sort xs)
    sort-IsSorted [] = tt
    sort-IsSorted (x ∷ xs) = insert-IsSorted x (sort xs) (sort-IsSorted xs)
