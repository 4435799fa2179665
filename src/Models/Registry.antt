-- ===== src/Models/Registry.antt =====
-- The registry finds exactly its models, and the cost of a known one.
use mathlib.Core.Option.{some-injective}
use ai_task_orchestrator.Base.{
  ℕ, ◌+◌, ◌*◌, ◌≡◌, refl, sym, ap, ◌∙◌, inl, inr, String, List, [], ◌∷◌, Option, none, some, ◌==◌,
  if◌then◌else◌, eq_cases,
}
use ai_task_orchestrator.Models.{
  ModelDefinition, models, get_model, get_all_models, get_default_model, CostMetrics, track,
}

abbrev find_model : List ModelDefinition → String → Option ModelDefinition
find_model [] id = none
find_model (m ∷ ms) id = if m.id == id then some m else find_model ms id

-- The map agrees with a search of the list of models, and lists all of them in order.
pub get_model-find :
    (id : String)
    → (get_model id ≡ find_model models id)
      × (get_all_models ≡ models)
      × (get_default_model ≡ find_model models "llama3.2")
unfolding get_model get_all_models get_default_model
get_model-find id = (refl, refl, refl)

search_id :
    (ms : List ModelDefinition) (id : String) (m : ModelDefinition)
    → find_model ms id ≡ some m
    → m.id ≡ id
search_id [] id m h = absurd (cc)
search_id (d ∷ ds) id m h = elim (eq_cases d.id id) [
  | inl (t, e) ↦ ap (λ (x : ModelDefinition). x.id) (some-injective m d (sym h ∙ rw t)) ∙ e
  | inr (f, ne) ↦ search_id ds id m (rw f at h)
]

-- A model that is found has the id that was asked for.
pub get_model-id : (id : String) (m : ModelDefinition) → get_model id ≡ some m → m.id ≡ id
unfolding get_model
get_model-id id m h = search_id models id m h

-- A record costs its tokens at the prices of the model that is named.
pub track-known :
    (metrics : CostMetrics) (task model : String) (input output : ℕ) (m : ModelDefinition)
    → get_model model ≡ some m
    → ((track metrics task model input output).1.cost_usd
        ≡ input * m.input_price + output * m.output_price)
      × ((track metrics task model input output).0.task_cost_usd
          ≡ metrics.task_cost_usd + (input * m.input_price + output * m.output_price))
unfolding track
track-known metrics task model input output m h = (rw h refl, rw h refl)
