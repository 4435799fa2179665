-- ===== src/Worker.antt =====
-- apps/worker/src/fair-scheduler.service.ts: what the worker does with the events of a job.
pub mod Failures
pub mod Processing
pub mod Latency
mod Examples
use ai_task_orchestrator.Base.{
  ℕ, ◌+◌, String, Bool, true, false, List, [], ◌∷◌, ◌++◌, map, Option, none, some, get_or, leb,
  if◌then◌else◌, ◌==◌, length,
}
use ai_task_orchestrator.Base.Json
use ai_task_orchestrator.Base.Json.{Json, Fields}
use ai_task_orchestrator.Base.Dict.{Dict}
use ai_task_orchestrator.Queue.{TaskPriority, priority_map, get_user_queue_name}
use ai_task_orchestrator.Jobs.{
  JobData, JobOptions, DeadLetter, Effect, add, add_dead_letter, default_attempts,
}
use ai_task_orchestrator.Workflow.{DagNodeInput}
use ai_task_orchestrator.Workflow.Store.{Redis}
use ai_task_orchestrator.Workflow.Coordinator.{
  mark_active, get_node, get_results, mark_failed, mark_complete_and_find_ready, set_job_id,
}

-- A job as the `failed` event shows it.
pub record FailedJob : Type 0 where
  pub id : String
  pub job : JobData
  pub attempts : Option ℕ
  pub attempts_made : ℕ

-- The counters that the events advance.
pub record Counters : Type 0 where
  pub task_completed : ℕ
  pub task_failed : ℕ
  pub task_timeout : ℕ
  pub task_dlq : ℕ

-- A DAG job: both fields are there and not empty.
abbrev pub dag_of : JobData → Option (String × String)
dag_of j = elim j.dag_id [
  | none ↦ none
  | some dag ↦ elim j.dag_node_id [
    | none ↦ none
    | some node ↦ if dag == "" then none else if node == "" then none else some (dag, node)
  ]
]

module _ (r : Redis) where
  open r use {Store}

  unfoldable pub mark_node_failed : Store → Option (String × String) → String → Store
  mark_node_failed s none reason = s
  mark_node_failed s (some (dag, node)) reason = mark_failed r s dag node reason

  -- The `failed` handler. `timed_out` says whether the message includes 'timed out'.
  unfoldable pub on_failed :
      (timed_out : String → Bool) (now : String)
      → Store × Counters
      → FailedJob
      → String
      → (Store × Counters) × List Effect
  on_failed timed_out now (s, c) f reason =
      let c₁ = record c {
        task_failed = c.task_failed + 1;
        task_timeout = c.task_timeout + (if timed_out reason then 1 else 0);
      } in
      if leb (get_or f.attempts 1) f.attempts_made
      then (
        (mark_node_failed s (dag_of f.job) reason, record c₁ { task_dlq = c₁.task_dlq + 1 }),
        add_dead_letter (record {
          job = f.job;
          original_job_id = f.id;
          failed_reason = reason;
          failed_at = now;
        })
            ∷ [],
      )
      else ((s, c₁), [])

  -- The job of a node that has become ready.
  unfoldable pub node_job :
      (created_at job_id user_id dag : String) → TaskPriority → DagNodeInput → Effect
  node_job created_at job_id user_id dag priority n =
      add (get_user_queue_name user_id)
        (record {
          id = job_id;
          user_id = user_id;
          priority = some priority;
          task_type = n.task_type;
          model = n.model;
          payload = n.payload;
          created_at = created_at;
          dag_id = some dag;
          dag_node_id = some n.id;
          workflow_id = none;
          step_name = none;
          step_index = none;
        })
        (record {
          job_id = job_id;
          priority = some (priority_map priority);
          attempts = default_attempts;
        })

  -- The loop over `readyNodes`; `uuid` gives the fresh id of a node's job.
  unfoldable pub enqueue_nodes :
      (uuid : DagNodeInput → String) (created_at user_id dag : String)
      → TaskPriority
      → Store
      → List DagNodeInput
      → Store × List Effect
  unfolding node_job
  enqueue_nodes uuid created_at user_id dag priority s [] = (s, [])
  enqueue_nodes uuid created_at user_id dag priority s (n ∷ ns) =
      let (s', effects) =
        enqueue_nodes uuid created_at user_id dag priority (set_job_id r s dag n.id (uuid n)) ns in
      (s', node_job created_at (uuid n) user_id dag priority n ∷ effects)

  unfoldable pub enqueue_found :
      (uuid : DagNodeInput → String) (created_at : String)
      → JobData
      → String
      → Store × List DagNodeInput
      → Store × List Effect
  unfolding enqueue_nodes
  enqueue_found uuid created_at j dag (s, found) =
      enqueue_nodes uuid created_at j.user_id dag (get_or j.priority TaskPriority.normal) s found

  -- onDagNodeCompleted
  unfoldable pub on_dag_node_completed :
      (uuid : DagNodeInput → String) (created_at : String)
      → Store
      → JobData
      → Json
      → Store × List Effect
  unfolding enqueue_found
  on_dag_node_completed uuid created_at s j result = elim (dag_of j) [
    | none ↦ (s, [])
    | some (dag, node) ↦
        enqueue_found uuid created_at j dag (mark_complete_and_find_ready r s dag node result)
  ]

  -- The `completed` handler.
  unfoldable pub on_completed :
      (uuid : DagNodeInput → String) (created_at : String)
      → Store × Counters
      → JobData
      → Json
      → (Store × Counters) × List Effect
  unfolding on_dag_node_completed
  on_completed uuid created_at (s, c) j result =
      let (s', effects) = on_dag_node_completed uuid created_at s j result in
      ((s', record c { task_completed = c.task_completed + 1 }), effects)

  -- The children's values of a chain step: the first one becomes `previousResult`.
  unfoldable pub with_previous : Fields → List (String × Json) → Fields
  with_previous payload [] = payload
  with_previous payload ((_, v) ∷ _) = Json.set payload "previousResult" v

  abbrev to_fields : Dict Json → Fields
  to_fields [] = Json.end
  to_fields ((k, v) ∷ m) = Json.field k v (to_fields m)

  abbrev depends_on : Option DagNodeInput → List String
  depends_on none = []
  depends_on (some n) = get_or n.depends_on []

  -- `payload.dependencies` of a DAG job, after the node is marked active.
  unfoldable pub with_dependencies : Store → Fields → Option (String × String) → Store × Fields
  with_dependencies s payload none = (s, payload)
  with_dependencies s payload (some (dag, node)) =
      let s' = mark_active r s dag node in
      let ds = depends_on (get_node r s' dag node) in
      elim ds [
        | [] ↦ (s', payload)
        | d ∷ rest ↦ (
          s',
          Json.set payload "dependencies" (Json.obj (to_fields (get_results r s' dag (d ∷ rest)))),
        )
      ]

  -- `processJob` up to the prompt: the payload that the model is asked with.
  unfoldable pub effective_payload : Store → JobData → List (String × Json) → Store × Fields
  unfolding with_previous with_dependencies
  effective_payload s j children = with_dependencies s (with_previous j.payload children) (dag_of j)
