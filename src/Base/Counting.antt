-- ===== src/Base/Counting.antt =====
-- Lists of texts by how often each text occurs in them.
use Prim.Native.Nat.{ℕ, ◌+◌, ◌≤◌, ◌<◌}
use Prim.Native.String.{String}
use mathlib.Core.Path.{◌≡◌, refl, ap, subst}
use mathlib.Core.Logic.{◌↔◌, inl, inr}
use mathlib.Core.Bool.{Bool, true, false, ◌||◌}
use mathlib.Core.List.{List, [], ◌∷◌, ◌++◌}
use native.Mathlib.Omega.{arith}
use text.Mathlib.Text.{◌==◌}
use text.Mathlib.TextEquality.{eq_iff}
use ai_task_orchestrator.Base.Tests.{if◌then◌else◌, eq_cases}
use ai_task_orchestrator.Base.Lists.{length}

-- `xs.includes(x)` of an array and `xs.has(x)` of a set.
abbrev pub includes : String → List String → Bool
includes x [] = false
includes x (y ∷ ys) = y == x || includes x ys

abbrev pub count : String → List String → ℕ
count x [] = 0
count x (y ∷ ys) = (if y == x then 1 else 0) + count x ys

-- The entries of the second list that the first lacks, counted with repetitions.
abbrev pub missing : List String → List String → ℕ
missing done [] = 0
missing done (d ∷ ds) = (if includes d done then 0 else 1) + missing done ds

-- No text occurs twice.
abbrev pub IsDistinct : List String → Type 0
IsDistinct xs = (x : String) → count x xs ≤ 1

-- Both lists hold the same texts, each as often.
abbrev pub SameItems : List String → List String → Type 0
SameItems xs ys = (x : String) → count x xs ≡ count x ys

pub count-append : (x : String) (xs ys : List String) → count x (xs ++ ys) ≡ count x xs + count x ys
count-append x [] ys = omega arith
count-append x (y ∷ xs) ys = omega (arith, count-append x xs ys)

pub includes-true_iff : (x : String) (xs : List String) → (includes x xs ≡ true) ↔ (0 < count x xs)
includes-true_iff x [] = (λ h. cc, λ h. absurd (omega arith))
includes-true_iff x (y ∷ ys) = ground (arith, includes-true_iff x ys)

pub includes-false_iff :
    (x : String) (xs : List String) → (includes x xs ≡ false) ↔ (count x xs ≡ 0)
includes-false_iff x xs = ground (arith, includes-true_iff x xs)

pub snoc-IsDistinct :
    (xs : List String) (x : String)
    → IsDistinct xs
    → includes x xs ≡ false
    → IsDistinct (xs ++ x ∷ [])
snoc-IsDistinct xs x h absent y = elim (eq_cases x y) [
  | inl (t, e) ↦ ground (
    arith,
    t,
    count-append y xs (x ∷ []),
    (includes-false_iff x xs).0 absent,
    ap (λ w. count w xs) e,
  )
  | inr (f, ne) ↦ ground (arith, f, count-append y xs (x ∷ []), h y)
]

-- One more text that was absent: its occurrences are no longer missing.
pub missing-snoc :
    (x : String) (done ds : List String)
    → count x done ≡ 0
    → missing done ds ≡ missing (done ++ x ∷ []) ds + count x ds
missing-snoc x done [] h = omega arith
missing-snoc x done (d ∷ ds) h = elim (eq_cases d x) [
  | inl (t, e) ↦ ground (
    arith,
    e,
    missing-snoc x done ds h,
    includes-true_iff d done,
    includes-true_iff d (done ++ x ∷ []),
    count-append d done (x ∷ []),
    eq_iff x d,
    ap (λ (w : String). count w done) e,
  )
  | inr (f, ne) ↦ ground (
    arith,
    missing-snoc x done ds h,
    includes-true_iff d done,
    includes-true_iff d (done ++ x ∷ []),
    count-append d done (x ∷ []),
    eq_iff x d,
  )
]

pub missing-append :
    (done xs ys : List String) → missing done (xs ++ ys) ≡ missing done xs + missing done ys
missing-append done [] ys = omega arith
missing-append done (x ∷ xs) ys = omega (arith, missing-append done xs ys)

pub missing-nil : (xs : List String) → missing [] xs ≡ length xs
missing-nil [] = refl
missing-nil (x ∷ xs) = omega (arith, missing-nil xs)

pub includes-append :
    (x : String) (xs ys : List String) → includes x (xs ++ ys) ≡ (includes x xs || includes x ys)
includes-append x [] ys = refl
includes-append x (y ∷ xs) ys = ground (arith, includes-append x xs ys)

-- Where nothing is missing every entry is there.
pub includes_of_missing :
    (x : String) (done ds : List String)
    → missing done ds ≡ 0
    → 0 < count x ds
    → includes x done ≡ true
includes_of_missing x done [] h c = absurd (omega arith)
includes_of_missing x done (d ∷ ds) h c = elim (eq_cases d x) [
  | inl (t, e) ↦ subst (λ (w : String). includes w done ≡ true) e (ground arith)
  | inr (f, ne) ↦ includes_of_missing x done ds (ground arith) (ground arith)
]
