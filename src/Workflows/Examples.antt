-- ===== src/Workflows/Examples.antt =====
-- Instances of the theorems on chains and DAGs: B depends on A, and A completes.
use ai_task_orchestrator.Base.{
  ◌≡◌, refl, String, true, List, [], ◌∷◌, ◌++◌, map, none, some, count, includes, IsDistinct, arith,
  eq_iff, eq_cases, subst, inl, inr, pred, succ, is_zero,
}
use ai_task_orchestrator.Base.Dict
use ai_task_orchestrator.Base.Json.{Json, end}
use ai_task_orchestrator.Base.Result.{ok}
use ai_task_orchestrator.Queue.{get_user_queue_name, TaskPriority}
use ai_task_orchestrator.Jobs.{JobData, Effect}
use ai_task_orchestrator.Worker.{dag_of}
use ai_task_orchestrator.Workflow.{DagNodeInput, DagMeta, ids}
use ai_task_orchestrator.Workflow.Sort.{
  topological_layers, collect_ids, add_nodes, init_graph, add_edges, add_edge, peel,
  release_frontier, release_children, check_processed,
}
use ai_task_orchestrator.Workflow.Coordinator.Runs.{Completions, completed_ids, AllKnown}
use ai_task_orchestrator.Workflow.Memory.{memory, blank}
use ai_task_orchestrator.Workflows.{
  leaf, parent, step_data, step_options, build_node, find_workflow, step_status, create_dag,
  normalise, Chain, Step, FlowJob, WorkflowMeta, create_chain,
}
use ai_task_orchestrator.Workflows.Chains.{
  run_order, jobs_from, create_chain-order, find_workflow-create_chain,
}
use ai_task_orchestrator.Workflows.Dags.{nodes_of, is_due}
use ai_task_orchestrator.Workflows.Lifecycle.{complete_jobs, create_dag-enqueues}

abbrev request : List DagNodeInput
request =
    record { id = "A"; payload = end; depends_on = none; task_type = none; model = none }
    ∷ record {
      id = "B";
      payload = end;
      depends_on = some ("A" ∷ []);
      task_type = none;
      model = none;
    }
    ∷ []

abbrev request_layers : List (List String)
request_layers = ("A" ∷ []) ∷ ("B" ∷ []) ∷ []

topological_layers-request : topological_layers (normalise request) ≡ ok request_layers
unfolding topological_layers collect_ids add_nodes init_graph add_edges add_edge peel
    release_frontier release_children check_processed Dict.get Dict.set pred succ is_zero
topological_layers-request = refl

abbrev node_job_data : String → JobData
node_job_data u = record {
  id = "job-1";
  user_id = "alice";
  priority = none;
  task_type = none;
  model = none;
  payload = end;
  created_at = "2026-04-18";
  dag_id = some "dag-1";
  dag_node_id = some u;
  workflow_id = none;
  step_name = none;
  step_index = none;
}

node_job_data-names :
    (u : String)
    → includes u (ids (normalise request)) ≡ true
    → dag_of (node_job_data u) ≡ some ("dag-1", u)
node_job_data-names u h = elim (eq_cases "A" u) [
  | inl (_, e) ↦ subst (λ w. dag_of (node_job_data w) ≡ some ("dag-1", w)) e refl
  | inr (f, _) ↦ elim (eq_cases "B" u) [
    | inl (_, e) ↦ subst (λ w. dag_of (node_job_data w) ≡ some ("dag-1", w)) e refl
    | inr (g, _) ↦ absurd (cc (rw (f, g) at h))
  ]
]

abbrev first_done : Completions
first_done = ("A", Json.null) ∷ []

first_done-IsDistinct : IsDistinct (completed_ids first_done)
first_done-IsDistinct x = ground (arith, eq_iff "A" x)

first_done-AllKnown : AllKnown (completed_ids first_done) (normalise request)
first_done-AllKnown u h = ground (arith, eq_iff "A" u)

enqueues_example :
    (t : memory.Store) × (first : List Effect) × (m : DagMeta) × (create_dag memory
        (λ n. n.id)
        "dag-1"
        "2026-04-18"
        "alice"
        none
        blank
        request
      ≡ ok ((t, first), m))
    × (m.layers ≡ request_layers)
    × ((v : String)
        → count v (
            nodes_of (
              first
              ++ (complete_jobs memory
                  (λ n. n.id)
                  "2026-04-18"
                  "dag-1"
                  node_job_data
                  t
                  first_done).1))
          ≡ is_due (normalise request) ("A" ∷ []) v)
enqueues_example =
    create_dag-enqueues memory (λ n. n.id) "dag-1" "2026-04-18" "alice" none blank request
      request_layers node_job_data first_done topological_layers-request node_job_data-names
      first_done-IsDistinct first_done-AllKnown

abbrev recipe : Chain
recipe = record {
  workflow_id = "wf-1";
  user_id = "alice";
  priority = TaskPriority.high;
  created_at = "2026-04-18";
}

abbrev draft : Step
draft = record { job_id = "job-1"; name = "draft"; payload = end; task_type = none; model = none }

abbrev review : Step
review = record { job_id = "job-2"; name = "review"; payload = end; task_type = none; model = none }

chain_example :
    (tree : FlowJob) × (m : WorkflowMeta) × (create_chain recipe (draft ∷ review ∷ [])
      ≡ some (tree, m))
    × (run_order tree ≡ jobs_from recipe 0 (draft ∷ review ∷ []))
    × (m.step_job_ids ≡ map (λ (j : JobData). j.id) (run_order tree))
chain_example = create_chain-order recipe draft (review ∷ [])

abbrev recipe_meta : WorkflowMeta
recipe_meta = record {
  workflow_id = "wf-1";
  user_id = "alice";
  step_job_ids = "job-1" ∷ "job-2" ∷ [];
  step_names = "draft" ∷ "review" ∷ [];
  created_at = "2026-04-18";
}

abbrev recipe_tree : FlowJob
recipe_tree =
    parent "tasks-user-alice" (step_data recipe 1 review) (step_options recipe review)
      (leaf "tasks-user-alice" (step_data recipe 0 draft) (step_options recipe draft))

create_chain-recipe : create_chain recipe (draft ∷ review ∷ []) ≡ some (recipe_tree, recipe_meta)
unfolding create_chain build_node get_user_queue_name
create_chain-recipe = refl

lookup_example :
    find_workflow (λ id. none) (some recipe_meta)
    ≡ some (
      recipe_meta,
      map (λ (s : Step). step_status s.job_id (some s.name) none) (draft ∷ review ∷ []),
    )
lookup_example =
    find_workflow-create_chain recipe (draft ∷ review ∷ []) (λ id. none) recipe_tree recipe_meta
      create_chain-recipe
