-- ===== src/Base/Dict.antt =====
-- JavaScript's `Map` with text keys: entries in insertion order, as its iterators show them.
use Prim.Native.String.{String}
use mathlib.Core.Path.{◌≡◌, refl}
use mathlib.Core.Bool.{Bool}
use mathlib.Core.Option.{Option, none, some}
use mathlib.Core.List.{List, [], ◌∷◌, map}
use native.Mathlib.Omega.{arith}
use text.Mathlib.Text.{◌==◌}
use text.Mathlib.TextEquality.{eq_iff}
use ai_task_orchestrator.Base.Tests.{if◌then◌else◌, is_some, get_or}

abbrev pub Dict {ℓ} : Type ℓ → Type ℓ
Dict V = List (String × V)

module _ {ℓ} {V : Type ℓ} where
  -- `m.get(k)`
  unfoldable pub get : Dict V → String → Option V
  get [] k = none
  get ((j, v) ∷ m) k = if j == k then some v else get m k

  -- `m.set(k, v)`: an old key keeps its place.
  unfoldable pub set : Dict V → String → V → Dict V
  set [] k v = (k, v) ∷ []
  set ((j, w) ∷ m) k v = if j == k then (j, v) ∷ m else (j, w) ∷ set m k v

  -- `m.has(k)`
  unfoldable pub has : Dict V → String → Bool
  unfolding get
  has m k = is_some (get m k)

  pub get-set :
      (m : Dict V) (k j : String) (v : V) → get (set m k v) j ≡ (if k == j then some v else get m j)
  unfolding get set
  get-set [] k j v = refl
  get-set ((i, w) ∷ m) k j v = ground (arith, eq_iff k j, eq_iff i k, eq_iff i j, get-set m k j v)

  pub get_or-set :
      (m : Dict V) (k j : String) (v d : V)
      → get_or (get (set m k v) j) d ≡ (if k == j then v else get_or (get m j) d)
  get_or-set m k j v d = ground (arith, get-set m k j v)

-- `Array.from(m.values())`, and the keys.
unfoldable pub values {ℓ} : {V : Type ℓ} → Dict V → List V
values m = map (λ (_, v). v) m

unfoldable pub keys {ℓ} : {V : Type ℓ} → Dict V → List String
keys m = map (λ (k, _). k) m
