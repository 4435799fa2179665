-- ===== src/Workflow/Interleaving/Examples.antt =====
-- The calls for B and C of the DAG A → {B, C} → D, command by command in turns.
use ai_task_orchestrator.Base.{
  ℕ, zero, suc, ◌≡◌, refl, ap, ◌<◌, String, true, List, [], ◌∷◌, count, includes, ◌∙◌, some, get_or,
  arith, pred, succ, is_zero, inl, inr, ◌⊎◌,
}
use ai_task_orchestrator.Base.Dict
use ai_task_orchestrator.Base.Json.{Json}
use ai_task_orchestrator.Workflow.{ids, deps_of}
use ai_task_orchestrator.Workflow.Store.{results, entry, result_json}
use ai_task_orchestrator.Workflow.Sort.{
  build_dependents, add_all_dependents, add_dependents, init_dependents,
}
use ai_task_orchestrator.Workflow.Coordinator.{persist, persist_nodes, persist_node, get_node}
use ai_task_orchestrator.Workflow.Coordinator.Runs.{is_released}
use ai_task_orchestrator.Workflow.Examples.{
  diamond, diamond_layers, diamond_meta, topological_layers-diamond,
}
use ai_task_orchestrator.Workflow.Memory.{memory, blank, memory_runs}
use ai_task_orchestrator.Workflow.Interleaving.{
  Call, started, advance, Pool, begin, command, Reach, start, after,
}
use ai_task_orchestrator.Workflow.Interleaving.Calls.{found_in}
use ai_task_orchestrator.Workflow.Interleaving.Returned.{AllReturned, interleaved-released}
use ai_task_orchestrator.Workflow.Interleaving.Results.{interleaved-results}

abbrev stored : memory.Store
stored = get_or (persist memory blank diamond_meta diamond) blank

persist-diamond : persist memory blank diamond_meta diamond ≡ some stored
unfolding persist build_dependents Dict.get Dict.set add_all_dependents add_dependents
    init_dependents
persist-diamond = refl

calls_cases : (cs : List Call) → (cs ≡ []) ⊎ ((c : Call) × ((ds : List Call) × (cs ≡ c ∷ ds)))
calls_cases [] = inl refl
calls_cases (c ∷ cs) = inr (c, (cs, refl))

abbrev State : Type 0
State = (x : Pool memory "dag-1") × Reach memory "dag-1" diamond stored x

abbrev called :
    (u : String)
    → includes u (ids diamond) ≡ true
    → (x : State) → count u (started x.0.calls) ≡ 0
    → State
called u known (x, h) absent = (_, after x _ h (begin u Json.null known absent))

abbrev first_turn : State → State
first_turn (x, h) = elim (calls_cases x.calls) [
  | inl _ ↦ (x, h)
  | inr (c, (cs, e)) ↦ (_, after x _ h (command [] c cs e))
]

abbrev second_turn : State → State
second_turn (x, h) = elim (calls_cases x.calls) [
  | inl _ ↦ (x, h)
  | inr (c, (cs, e)) ↦ elim (calls_cases cs) [
    | inl _ ↦ (x, h)
    | inr (d, (ds, f)) ↦ (_, after x _ h (command (c ∷ []) d ds (e ∙ ap (λ l. c ∷ l) f)))
  ]
]

abbrev turns : ℕ → State → State
turns zero x = x
turns (suc n) x = turns n (second_turn (first_turn x))

abbrev both : State
both = turns 8 (called "C" refl (called "B" refl (_, start) refl) refl)

both_run : Unit {0}
unfolding advance get_node memory_runs persist persist_nodes persist_node build_dependents
    add_all_dependents add_dependents init_dependents Dict.get Dict.set pred succ is_zero
    calls_cases
both_run = tt

both-AllReturned : AllReturned both.0.calls
unfolding both_run
both-AllReturned = (tt, (tt, tt))

found_D : found_in both.0.calls "D" ≡ 1
unfolding both_run
found_D = refl

interleaved-released_example :
    found_in both.0.calls "D" ≡ is_released diamond (started both.0.calls) "D"
interleaved-released_example =
    interleaved-released memory blank diamond_meta diamond diamond_layers stored both.0
      topological_layers-diamond persist-diamond both.1 both-AllReturned "D"

interleaved-results_example :
    (found_in both.0.calls "D" ≡ 1)
    × (0 < count "B" (deps_of diamond "D")
        → (result : Json) × (both.0.store (entry results "dag-1" "B") ≡ some (result_json result)))
interleaved-results_example =
    interleaved-results memory blank diamond_meta diamond diamond_layers stored both.0 "B" "D"
      topological_layers-diamond persist-diamond both.1 (rw found_D (omega arith))
