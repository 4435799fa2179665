-- ===== src/Base/Latest.antt =====
-- Buffers that hold the latest entries only.
use Prim.Native.Nat.{ℕ, zero, suc, ◌+◌, ◌-◌, ◌≤◌}
use Prim.Native.String.{String}
use mathlib.Core.Path.{◌≡◌, refl, sym, ap, ◌∙◌}
use mathlib.Core.Logic.{inl, inr}
use mathlib.Core.List.{List, [], ◌∷◌, ◌++◌, map}
use native.Mathlib.Omega.{arith}
use ai_task_orchestrator.Base.Tests.{ltb, if◌then◌else◌, Bool-cases}
use ai_task_orchestrator.Base.Lists.{length, length-map, length-append, length-drop, drop}
use ai_task_orchestrator.Base.Counting.{count, IsDistinct}

module _ {ℓ} {A : Type ℓ} where
  -- `xs.slice(-n)`
  abbrev pub latest : ℕ → List A → List A
  latest n xs = drop (length xs - n) xs

  -- `const next = [...xs, x]; return next.length > n ? next.slice(-n) : next`
  abbrev pub push_latest : ℕ → List A → A → List A
  push_latest n xs x =
      let next = xs ++ x ∷ [] in if ltb n (length next) then latest n next else next

  pub length-latest : (n : ℕ) (xs : List A) → length (latest n xs) ≤ n
  length-latest n xs = omega (arith, length-drop (length xs - n) xs)

  drop-nil : (n : ℕ) → drop {A = A} n [] ≡ []
  drop-nil zero = refl
  drop-nil (suc n) = refl

  drop-drop : (a b c : ℕ) (xs : List A) → c ≡ b + a → drop a (drop b xs) ≡ drop c xs
  drop-drop a zero c xs h = ap (λ k. drop k xs) (omega arith)
  drop-drop a (suc b) c [] h = drop-nil a ∙ sym (drop-nil c)
  drop-drop a (suc b) zero (x ∷ xs) h = absurd (omega arith)
  drop-drop a (suc b) (suc c) (x ∷ xs) h = drop-drop a b c xs (omega arith)

  drop-append_le : (n : ℕ) (xs ys : List A) → n ≤ length xs → drop n (xs ++ ys) ≡ drop n xs ++ ys
  drop-append_le zero xs ys h = refl
  drop-append_le (suc n) [] ys h = absurd (omega arith)
  drop-append_le (suc n) (x ∷ xs) ys h = drop-append_le n xs ys (omega arith)

  pub push_latest_lem : (n : ℕ) (xs : List A) (x : A) → push_latest n xs x ≡ latest n (xs ++ x ∷ [])
  push_latest_lem n xs x = elim (Bool-cases (ltb n (length (xs ++ x ∷ [])))) [
    | inl t ↦ rw t refl
    | inr f ↦
        let none_left : 0 ≡ length (xs ++ x ∷ []) - n = ground (arith, f) in
        rw f (ap (λ k. drop k (xs ++ x ∷ [])) none_left)
  ]

  -- A buffer that took its entries one by one holds the latest of all of them.
  pub push_latest-latest :
      (n : ℕ) (xs : List A) (x : A) → push_latest n (latest n xs) x ≡ latest n (xs ++ x ∷ [])
  push_latest-latest n xs x =
      let over = length xs - n in
      let next = drop over xs ++ x ∷ [] in
      push_latest_lem n (latest n xs) x
      ∙ ap (drop (length next - n)) (sym (drop-append_le over xs (x ∷ []) (omega arith)))
      ∙ drop-drop (length next - n) over (length (xs ++ x ∷ []) - n) (xs ++ x ∷ []) (
          omega (
            arith,
            length-append (drop over xs) (x ∷ []),
            length-append xs (x ∷ []),
            length-drop over xs,
          ))

  -- The latest `n` of the latest `m` entries.
  pub latest-latest : (n m : ℕ) (xs : List A) → n ≤ m → latest n (latest m xs) ≡ latest n xs
  latest-latest n m xs h =
      drop-drop (length (latest m xs) - n) (length xs - m) (length xs - n) xs
        (omega (arith, length-drop (length xs - m) xs))

  pub latest_short : (n : ℕ) (xs : List A) → length xs ≤ n → latest n xs ≡ xs
  latest_short n xs h =
      let none_left : length xs - n ≡ 0 = omega arith in ap (λ k. drop k xs) none_left

module _ {ℓ ℓ'} {A : Type ℓ} {B : Type ℓ'} (f : A → B) where
  map-drop : (n : ℕ) (xs : List A) → map f (drop n xs) ≡ drop n (map f xs)
  map-drop zero xs = refl
  map-drop (suc n) [] = refl
  map-drop (suc n) (x ∷ xs) = map-drop n xs

  pub map-latest : (n : ℕ) (xs : List A) → map f (latest n xs) ≡ latest n (map f xs)
  map-latest n xs =
      map-drop (length xs - n) xs ∙ ap (λ k. drop (k - n) (map f xs)) (sym (length-map f xs))

count-drop : (x : String) (n : ℕ) (xs : List String) → count x (drop n xs) ≤ count x xs
count-drop x zero xs = omega arith
count-drop x (suc n) [] = omega arith
count-drop x (suc n) (y ∷ xs) = omega (arith, count-drop x n xs)

pub latest-IsDistinct : (n : ℕ) (xs : List String) → IsDistinct xs → IsDistinct (latest n xs)
latest-IsDistinct n xs h x = omega (arith, h x, count-drop x (length xs - n) xs)
