-- ===== src/Workflow/Examples.antt =====
-- Tests and instances of the theorems on DAGs.
use ai_task_orchestrator.Base.{
  ℕ, ◌≡◌, refl, String, List, [], ◌∷◌, arith, count, IsDistinct, SameItems, ◌==◌, eq_iff,
  if◌then◌else◌, none, some, flatten,
}
use ai_task_orchestrator.Base.Json.{Json, end}
use ai_task_orchestrator.Base.Result.{ok, err}
use ai_task_orchestrator.Workflow.{DagNodeInput, DagMeta, ids, deps_of}
use ai_task_orchestrator.Workflow.Sort.{
  topological_layers, collect_ids, add_nodes, init_graph, add_edges, add_edge, peel,
  release_frontier, release_children, check_processed, children, cycle, unknown_dependency,
  build_dependents,
}
use ai_task_orchestrator.Base.Dict
use ai_task_orchestrator.Base.{pred, succ, is_zero}
use ai_task_orchestrator.Workflow.Sort.Outcome.{IsRanked, IsClosed, Explains}
use ai_task_orchestrator.Workflow.Sort.Layers.{IsLayering}
use ai_task_orchestrator.Workflow.Sort.Correct.{
  topological_layers-IsLayering, topological_layers-Explains, topological_layers-returns,
}
use ai_task_orchestrator.Workflow.Sort.Dependents.{build_dependents_lem}
use ai_task_orchestrator.Workflow.Coordinator.{persist}
use ai_task_orchestrator.Workflow.Coordinator.Runs.{
  Completions, completed_ids, AllKnown, is_released, complete_all, complete_all-released,
}
use ai_task_orchestrator.Workflow.Memory.{memory, blank}

abbrev node : String → List String → DagNodeInput
node id ds = record { id = id; payload = end; depends_on = some ds; task_type = none; model = none }

-- A → {B, C} → D
abbrev pub diamond : List DagNodeInput
diamond = node "A" [] ∷ node "B" ("A" ∷ []) ∷ node "C" ("A" ∷ []) ∷ node "D" ("B" ∷ "C" ∷ []) ∷ []

abbrev pub diamond_layers : List (List String)
diamond_layers = ("A" ∷ []) ∷ ("B" ∷ "C" ∷ []) ∷ ("D" ∷ []) ∷ []

-- A → B → A
abbrev ring : List DagNodeInput
ring = node "A" ("B" ∷ []) ∷ node "B" ("A" ∷ []) ∷ []

sort_runs : Unit {0}
unfolding topological_layers collect_ids add_nodes init_graph add_edges add_edge peel
    release_frontier release_children check_processed Dict.get Dict.set pred succ is_zero
sort_runs = tt

pub topological_layers-diamond : topological_layers diamond ≡ ok diamond_layers
unfolding sort_runs
topological_layers-diamond = refl

topological_layers-ring : topological_layers ring ≡ err cycle
unfolding sort_runs
topological_layers-ring = refl

topological_layers-unknown :
    topological_layers (node "A" ("Z" ∷ []) ∷ []) ≡ err (unknown_dependency "A" "Z")
unfolding sort_runs
topological_layers-unknown = refl

IsLayering_example :
    IsDistinct (ids diamond)
    × SameItems (flatten diamond_layers) (ids diamond)
    × IsLayering diamond [] diamond_layers
IsLayering_example = topological_layers-IsLayering diamond diamond_layers topological_layers-diamond

Explains_example : Explains ring cycle
Explains_example = topological_layers-Explains ring cycle topological_layers-ring

-- B depends on A.
abbrev chain_rank : String → ℕ
chain_rank v = if v == "B" then 1 else 0

abbrev pair : List DagNodeInput
pair = node "B" ("A" ∷ []) ∷ node "A" [] ∷ []

pair-IsDistinct : IsDistinct (ids pair)
pair-IsDistinct x = ground (arith, eq_iff "B" x, eq_iff "A" x, eq_iff "B" "A")

pair-IsClosed : IsClosed pair
pair-IsClosed u v h = ground (arith, eq_iff "A" u, eq_iff "B" v, eq_iff "A" v)

pair-IsRanked : IsRanked chain_rank pair
pair-IsRanked u v h =
    ground
      (arith, eq_iff "A" u, eq_iff "B" v, eq_iff "A" v, eq_iff v "B", eq_iff u "B", eq_iff "A" "B")

returns_example : (layers : List (List String)) × (topological_layers pair ≡ ok layers)
returns_example =
    topological_layers-returns (node "B" ("A" ∷ [])) (node "A" [] ∷ []) chain_rank pair-IsDistinct
      pair-IsClosed pair-IsRanked

build_dependents_example :
    (m : Dict.Dict (List String)) × (build_dependents pair ≡ some m)
    × ((u v : String) → count v (children m u) ≡ count u (deps_of pair v))
build_dependents_example = build_dependents_lem pair pair-IsClosed

-- A and C complete: B has become ready, and D waits for B.
abbrev two_done : Completions
two_done = ("A", Json.null) ∷ ("C", Json.null) ∷ []

two_done-IsDistinct : IsDistinct (completed_ids two_done)
two_done-IsDistinct x = ground (arith, eq_iff "A" x, eq_iff "C" x, eq_iff "A" "C")

two_done-AllKnown : AllKnown (completed_ids two_done) diamond
two_done-AllKnown u h = ground (arith, eq_iff "A" u, eq_iff "C" u)

abbrev pub diamond_meta : DagMeta
diamond_meta = record {
  dag_id = "dag-1";
  user_id = "alice";
  created_at = "2026-04-18";
  node_ids = ids diamond;
  layers = diamond_layers;
}

released_example :
    (t : memory.Store) × (persist memory blank diamond_meta diamond ≡ some t)
    × ((v : String)
        → count v (ids (complete_all memory "dag-1" t two_done).1)
          ≡ is_released diamond ("A" ∷ "C" ∷ []) v)
released_example =
    complete_all-released memory blank diamond_meta diamond diamond_layers two_done
      topological_layers-diamond two_done-IsDistinct two_done-AllKnown
