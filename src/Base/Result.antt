-- ===== src/Base/Result.antt =====
-- Code that throws: the value, or the exception.
use mathlib.Core.Path.{◌≡◌, refl}
use mathlib.Core.Logic.{◌⊎◌, inl, inr}

pub data Result {ℓ κ} (E : Type ℓ) (A : Type κ) : Type (ℓ ⊔ κ) where
  err : E → Result E A
  ok : A → Result E A

module _ {ℓ κ μ} {E : Type ℓ} {A : Type κ} {B : Type μ} where
  infixl 5 ◌>>=◌
  abbrev pub ◌>>=◌ : Result E A → (A → Result E B) → Result E B
  err thrown >>= step = err thrown
  ok value >>= step = step value

  -- What a chain of two steps that did not throw says of them.
  pub >>=-returns :
      {final : B} (first : Result E A) (step : A → Result E B)
      → first >>= step ≡ ok final
      → (value : A) × (first ≡ ok value) × (step value ≡ ok final)
  >>=-returns (err thrown) step returned = cc
  >>=-returns (ok value) step returned = (value, refl, returned)

pub ok-injective {ℓ κ} :
    {E : Type ℓ} {A : Type κ} (a b : A) → ◌≡◌ {A = Result E A} (ok a) (ok b) → a ≡ b
ok-injective a b h = cc

pub Result-cases {ℓ κ} :
    {E : Type ℓ} {A : Type κ} (r : Result E A) → ((a : A) × (r ≡ ok a)) ⊎ ((e : E) × (r ≡ err e))
Result-cases (ok a) = inl (a, refl)
Result-cases (err e) = inr (e, refl)

pub err-injective {ℓ κ} :
    {E : Type ℓ} {A : Type κ} (a b : E) → ◌≡◌ {A = Result E A} (err a) (err b) → a ≡ b
err-injective a b h = cc
