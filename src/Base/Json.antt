-- ===== src/Base/Json.antt =====
-- JSON values: payloads, job data and results.
use Prim.Native.Nat.{ℕ}
use Prim.Native.String.{String}
use mathlib.Core.Path.{◌≡◌, refl}
use mathlib.Core.Bool.{Bool}
use mathlib.Core.Option.{Option, none, some}
use native.Mathlib.Omega.{arith}
use text.Mathlib.Text.{◌==◌}
use text.Mathlib.TextEquality.{eq_iff}
use ai_task_orchestrator.Base.Tests.{if◌then◌else◌}

mutual
  pub data Json : Type 0 where
    null : Json
    bool : Bool → Json
    num : ℕ → Json
    str : String → Json
    arr : Items → Json
    obj : Fields → Json

  pub data Items : Type 0 where
    nil : Items
    cons : Json → Items → Items

  pub data Fields : Type 0 where
    end : Fields
    field : String → Json → Fields → Fields

-- `o[k]`
unfoldable pub get : Fields → String → Option Json
get end k = none
get (field j v o) k = if j == k then some v else get o k

-- `{ ...o, [k]: v }`: an old key keeps its place.
unfoldable pub set : Fields → String → Json → Fields
set end k v = field k v end
set (field j w o) k v = if j == k then field j v o else field j w (set o k v)

pub get-set :
    (o : Fields) (k j : String) (v : Json)
    → get (set o k v) j ≡ (if k == j then some v else get o j)
unfolding get set
get-set end k j v = refl
get-set (field i w o) k j v = ground (arith, eq_iff k j, eq_iff i k, eq_iff i j, get-set o k j v)
