-- ===== src/Base/Pigeonhole.antt =====
-- A list that holds no text more often than another is no longer than it.
use Prim.Native.Nat.{suc, ◌+◌, ◌≤◌, ◌<◌}
use Prim.Native.String.{String}
use mathlib.Core.Path.{◌≡◌, refl}
use mathlib.Core.Logic.{inl, inr}
use mathlib.Core.Bool.{false}
use mathlib.Core.List.{List, [], ◌∷◌}
use native.Mathlib.Omega.{arith}
use text.Mathlib.Text.{◌==◌}
use text.Mathlib.TextPositions.{eq_refl}
use ai_task_orchestrator.Base.Tests.{if◌then◌else◌, eq_cases}
use ai_task_orchestrator.Base.Lists.{length}
use ai_task_orchestrator.Base.Counting.{count}

-- The list without one occurrence of `x`.
erase : String → List String → List String
erase x [] = []
erase x (y ∷ ys) = if y == x then ys else y ∷ erase x ys

length-erase :
    (x : String) (ys : List String) → 0 < count x ys → suc (length (erase x ys)) ≡ length ys
unfolding erase
length-erase x [] h = absurd (omega arith)
length-erase x (y ∷ ys) h = ground (arith, length-erase x ys)

count-cons_ne : (x y : String) (ys : List String) → (y == x) ≡ false → count x (y ∷ ys) ≡ count x ys
count-cons_ne x y ys f = rw f (omega arith)

count-erase :
    (x v : String) (ys : List String)
    → 0 < count x ys
    → count v ys ≡ count v (erase x ys) + (if x == v then 1 else 0)
unfolding erase
count-erase x v [] h = absurd (omega arith)
count-erase x v (y ∷ ys) h = elim (eq_cases y x) [
  | inl (t, e) ↦ rw (t, e) (omega arith)
  | inr (f, ne) ↦
      let ih = count-erase x v ys (omega (arith, count-cons_ne x y ys f)) in
      rw f (omega (arith, ih))
]

pub length-le_of_count :
    (xs ys : List String) → ((v : String) → count v xs ≤ count v ys) → length xs ≤ length ys
length-le_of_count [] ys h = omega arith
length-le_of_count (x ∷ xs) ys h =
    let here : 0 < count x ys = ground (arith, h x, eq_refl x) in
    omega (
      arith,
      length-erase x ys here,
      length-le_of_count xs (erase x ys) (λ v. ground (arith, h v, count-erase x v ys here)),
    )

-- If it is not shorter either, both hold the same texts.
pub count-eq_of_length :
    (xs ys : List String)
    → ((v : String) → count v xs ≤ count v ys)
    → length ys ≤ length xs
    → (v : String) → count v xs ≡ count v ys
count-eq_of_length [] [] h l v = refl
count-eq_of_length [] (y ∷ ys) h l v = absurd (omega arith)
count-eq_of_length (x ∷ xs) ys h l v =
    let here : 0 < count x ys = ground (arith, h x, eq_refl x) in
    ground (
      arith,
      length-erase x ys here,
      count-erase x v ys here,
      count-eq_of_length xs (erase x ys) (λ w. ground (arith, h w, count-erase x w ys here))
          (omega (arith, length-erase x ys here)) v,
    )
