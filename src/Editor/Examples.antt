-- ===== src/Editor/Examples.antt =====
-- Two nodes and an edge between them; then an edge back, which the page refuses.

use ai_task_orchestrator.Base.{
  ℕ, zero, suc, ◌≡◌, refl, String, true, false, List, [], ◌∷◌, ◌++◌, none, some, IsDistinct, arith,
  eq_iff, ap, ◌⊎◌, inl, inr, ◌↔◌, eq_cases, ◌==◌,
}
use ai_task_orchestrator.Base.Dict
use ai_task_orchestrator.Base.Json.{end}
use ai_task_orchestrator.Base.Result.{ok}
use ai_task_orchestrator.Workflow.{DagMeta}
use ai_task_orchestrator.Workflow.Sort.{topological_layers}
use ai_task_orchestrator.Workflow.Memory.{memory, blank}
use ai_task_orchestrator.Workflows.{create_dag}
use ai_task_orchestrator.Jobs.{Effect}
use ai_task_orchestrator.Editor.{
  Edge, EditorNode, cycle, EditorState, ReactFlow, adjacency, push_at, explore, would_create_cycle,
  check_edges, validate_dag, build_dag_payload, make_node, initial, add_node, on_connect, submit,
}
use ai_task_orchestrator.Editor.Paths.{Leads}
use ai_task_orchestrator.Editor.Search.{would_create_cycle-decides}
use ai_task_orchestrator.Editor.Checks.{node_ids, IsBetween}
use ai_task_orchestrator.Editor.Agreement.{validate_dag-agrees}
use ai_task_orchestrator.Editor.Sessions.{Reach, start, after, added, connected, submit-create_dag}

abbrev first_edge : Edge
first_edge = record { source = "A"; target = "B" }

abbrev second_edge : Edge
second_edge = record { source = "B"; target = "A" }

-- Each node to the other: the graph is refused by both checks.
back_and_forth :
    validate_dag
      (record { id = "A"; payload = end; task_type = none }
        ∷ record { id = "B"; payload = end; task_type = none }
        ∷ [])
      (first_edge ∷ second_edge ∷ [])
    ≡ some cycle
unfolding validate_dag check_edges would_create_cycle explore adjacency push_at Dict.has Dict.get
    Dict.set
back_and_forth = refl

would_create_cycle-decides_example :
    (would_create_cycle (first_edge ∷ []) "B" "A" ≡ some true) × Leads (first_edge ∷ []) "A" "B"
    ⊎ (would_create_cycle (first_edge ∷ []) "B" "A" ≡ some false)
      × ¬ Leads (first_edge ∷ []) "A" "B"
would_create_cycle-decides_example = would_create_cycle-decides (first_edge ∷ []) "B" "A"

abbrev page_flow : ReactFlow
page_flow = record { add_edge = λ e es. es ++ e ∷ []; add_edge-new = λ e es h. refl }

-- Ids of the page's kind: `N`, then strokes.
abbrev tally_label : ℕ → String
tally_label zero = "N"
tally_label (suc n) = String.◌∷◌ "N" (tally_label n)

abbrev strokes : String → ℕ
strokes String.[] = 0
strokes (String.◌∷◌ c s) = suc (strokes s)

strokes-tally_label : (n : ℕ) → strokes (tally_label n) ≡ suc n
strokes-tally_label zero = refl
strokes-tally_label (suc n) = ap suc (strokes-tally_label n)

tally_label_distinct : (a b : ℕ) → tally_label a ≡ tally_label b → a ≡ b
tally_label_distinct a b h =
    omega (arith, strokes-tally_label a, strokes-tally_label b, ap strokes h)

abbrev two_nodes : EditorState
two_nodes = add_node tally_label (initial tally_label)

abbrev drawn : EditorState
drawn = on_connect page_flow two_nodes (record { source = "NN"; target = "NNN" })

drawn_graph : Reach page_flow tally_label drawn
unfolding add_node initial make_node
drawn_graph =
    after two_nodes drawn (after (initial tally_label) two_nodes start added)
      (connected (record { source = "NN"; target = "NNN" }) refl refl)

drawn_edges : drawn.edges ≡ record { source = "NN"; target = "NNN" } ∷ []
unfolding add_node initial make_node on_connect would_create_cycle explore adjacency push_at
    Dict.has Dict.get Dict.set
drawn_edges = refl

drawn_nodes : drawn.nodes ≡ make_node tally_label 1 ∷ make_node tally_label 2 ∷ []
unfolding add_node initial on_connect would_create_cycle explore adjacency push_at Dict.has Dict.get
    Dict.set
drawn_nodes = refl

submit-create_dag_example :
    (submit drawn
      ≡ (record drawn { notice = none }, some (build_dag_payload drawn.nodes drawn.edges)))
    × (t : memory.Store) × (first : List Effect) × (m : DagMeta) × (create_dag memory
          (λ n. n.id)
          "dag-1"
          "2026-04-18"
          "alice"
          none
          blank
          (build_dag_payload drawn.nodes drawn.edges)
        ≡ ok ((t, first), m))
submit-create_dag_example =
    submit-create_dag page_flow tally_label drawn (make_node tally_label 1)
      (make_node tally_label 2 ∷ []) memory (λ n. n.id) "dag-1" "2026-04-18" "alice" none blank
      tally_label_distinct drawn_graph drawn_nodes

abbrev pair_nodes : List EditorNode
pair_nodes =
    record { id = "A"; payload = end; task_type = none }
    ∷ record { id = "B"; payload = end; task_type = none }
    ∷ []

pair_IsDistinct : IsDistinct (node_ids pair_nodes)
pair_IsDistinct x = elim (eq_cases "A" x) [
  | inl (t, e) ↦ ground (arith, t, ap (λ w. "B" == w) e)
  | inr (f, ne) ↦ ground (arith, f)
]

pair_IsBetween : IsBetween (first_edge ∷ []) (node_ids pair_nodes)
pair_IsBetween u v j = ground (arith, j, eq_iff "A" u, eq_iff "B" v)

validate_dag-agrees_example : (validate_dag pair_nodes (first_edge ∷ []) ≡ none) ↔ (
    (layers : List (List String)) × (topological_layers
        (build_dag_payload pair_nodes (first_edge ∷ []))
      ≡ ok layers))
validate_dag-agrees_example =
    validate_dag-agrees pair_nodes (first_edge ∷ []) pair_IsDistinct pair_IsBetween
