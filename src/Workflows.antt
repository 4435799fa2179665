-- ===== src/Workflows.antt =====
-- apps/api/src/workflows/workflows.service.ts: chains and DAGs. Fresh ids, the clock and what the
-- queues answer are arguments; STATE_MAP is that of Tasks.
pub mod Chains
pub mod Dags
pub mod Lifecycle
mod Examples
use ai_task_orchestrator.Base.{
  ℕ, zero, suc, ◌+◌, String, Bool, List, [], ◌∷◌, ◌++◌, map, Option, none, some, get_or, eqb,
  if◌then◌else◌, length, select,
}
use ai_task_orchestrator.Base.Dict
use ai_task_orchestrator.Base.Dict.{Dict}
use ai_task_orchestrator.Base.Json.{Json, Fields}
use ai_task_orchestrator.Base.Result.{Result, ok, err}
use ai_task_orchestrator.Queue.{
  TaskPriority, TaskType, TaskStatus, priority_map, get_user_queue_name,
}
use ai_task_orchestrator.Jobs.{JobData, JobOptions, JobState, Effect, add, default_attempts}
use ai_task_orchestrator.Tasks.{state_map, or_normal}
use ai_task_orchestrator.Workflow.{DagNodeInput, DagMeta, NodeStatus, pending, deps, ids}
use ai_task_orchestrator.Workflow.Sort.{DagValidationError, topological_layers}
use ai_task_orchestrator.Workflow.Store.{Redis}
use ai_task_orchestrator.Workflow.Coordinator.{
  persist, set_job_id, get_meta, get_all_statuses, get_job_ids, get_results, get_failures,
  get_all_nodes,
}

-- A step of the DTO, with the fresh id of its job.
pub record Step : Type 0 where
  pub job_id : String
  pub name : String
  pub payload : Fields
  pub task_type : Option TaskType
  pub model : Option String

-- BullMQ's FlowJob, with the one child that the service gives it: the children run first.
pub data FlowJob : Type 0 where
  leaf : (queue : String) → JobData → JobOptions → FlowJob
  parent : (queue : String) → JobData → JobOptions → (child : FlowJob) → FlowJob

-- What a chain's jobs share.
pub record Chain : Type 0 where
  pub workflow_id : String
  pub user_id : String
  pub priority : TaskPriority
  pub created_at : String

unfoldable pub step_data : Chain → ℕ → Step → JobData
step_data c index step = record {
  id = step.job_id;
  user_id = c.user_id;
  priority = some c.priority;
  task_type = step.task_type;
  model = step.model;
  payload = step.payload;
  created_at = c.created_at;
  dag_id = none;
  dag_node_id = none;
  workflow_id = some c.workflow_id;
  step_name = some step.name;
  step_index = some index;
}

unfoldable pub step_options : Chain → Step → JobOptions
step_options c step = record {
  job_id = step.job_id;
  priority = some (priority_map c.priority);
  attempts = default_attempts;
}

-- `buildNode`: `steps` from the step of the index downwards to the first one. `none` is the
-- TypeError at a step that is not there, which an empty list of steps would meet.
unfoldable pub build_node : Chain → List Step → Option FlowJob
unfolding step_data step_options
build_node c [] = none
build_node c (step ∷ before) =
    let queue = get_user_queue_name c.user_id in
    let job = step_data c (length before) step in
    elim (build_node c before) [
      | none ↦ some (leaf queue job (step_options c step))
      | some child ↦ some (parent queue job (step_options c step) child)
    ]

pub record WorkflowMeta : Type 0 where
  pub workflow_id : String
  pub user_id : String
  pub step_job_ids : List String
  pub step_names : List String
  pub created_at : String

abbrev pub reverse : List Step → List Step
reverse [] = []
reverse (s ∷ ss) = reverse ss ++ s ∷ []

-- The tree that is added, and the description that is stored and returned.
unfoldable pub create_chain : Chain → List Step → Option (FlowJob × WorkflowMeta)
unfolding build_node
create_chain c steps = elim (build_node c (reverse steps)) [
  | none ↦ none
  | some tree ↦ some (
    tree,
    record {
      workflow_id = c.workflow_id;
      user_id = c.user_id;
      step_job_ids = map (λ s. s.job_id) steps;
      step_names = map (λ s. s.name) steps;
      created_at = c.created_at;
    },
  )
]

pub data DagError : Type 0 where
  bad_request : DagValidationError → DagError
  type_error : DagError

-- `nodeInputs`
abbrev pub normal : DagNodeInput → DagNodeInput
normal n = record n { depends_on = some (deps n) }

abbrev pub normalise : List DagNodeInput → List DagNodeInput
normalise = map normal

abbrev pub root_nodes : List DagNodeInput → List DagNodeInput
root_nodes = select (λ n. eqb (length (deps n)) 0)

module _ (r : Redis) where
  open r use {Store}

  -- The loop over `rootNodes`; `uuid` gives the fresh id of a node's job.
  unfoldable pub enqueue_roots :
      (uuid : DagNodeInput → String) (created_at user_id dag : String)
      → TaskPriority
      → Store
      → List DagNodeInput
      → Store × List Effect
  enqueue_roots uuid created_at user_id dag priority s [] = (s, [])
  enqueue_roots uuid created_at user_id dag priority s (n ∷ ns) =
      let (s', effects) =
        enqueue_roots uuid created_at user_id dag priority (set_job_id r s dag n.id (uuid n)) ns in
      (
        s',
        add (get_user_queue_name user_id)
              (record {
                id = uuid n;
                user_id = user_id;
                priority = some priority;
                task_type = n.task_type;
                model = n.model;
                payload = n.payload;
                created_at = created_at;
                dag_id = some dag;
                dag_node_id = some n.id;
                workflow_id = none;
                step_name = none;
                step_index = none;
              })
              (record {
                job_id = uuid n;
                priority = some (priority_map priority);
                attempts = default_attempts;
              })
            ∷ effects,
      )

  abbrev dag_meta :
      (dag created_at user_id : String) → List DagNodeInput → List (List String) → DagMeta
  dag_meta dag created_at user_id nodes layers = record {
    dag_id = dag;
    user_id = user_id;
    created_at = created_at;
    node_ids = ids nodes;
    layers = layers;
  }

  -- From the layers on. The store of `persist` is `none` where it throws.
  unfoldable pub store_dag :
      (uuid : DagNodeInput → String)
      → TaskPriority
      → Store
      → DagMeta
      → List DagNodeInput
      → Result DagError ((Store × List Effect) × DagMeta)
  unfolding enqueue_roots
  store_dag uuid priority s m nodes = elim (persist r s m nodes) [
    | none ↦ err type_error
    | some t ↦
        ok (enqueue_roots uuid m.created_at m.user_id m.dag_id priority t (root_nodes nodes), m)
  ]

  unfoldable pub create_dag :
      (uuid : DagNodeInput → String) (dag created_at user_id : String)
      → Option TaskPriority
      → Store
      → List DagNodeInput
      → Result DagError ((Store × List Effect) × DagMeta)
  unfolding store_dag
  create_dag uuid dag created_at user_id priority s input =
      let nodes = normalise input in
      elim (topological_layers nodes) [
        | err e ↦ err (bad_request e)
        | ok layers ↦
            store_dag uuid (or_normal priority) s (dag_meta dag created_at user_id nodes layers)
              nodes
      ]

pub record DagStatusNode : Type 0 where
  pub id : String
  pub depends_on : List String
  pub job_id : Option String
  pub status : NodeStatus
  pub result : Option Json
  pub failed_reason : Option String

abbrev depends_on_of : Option DagNodeInput → List String
depends_on_of none = []
depends_on_of (some n) = deps n

-- `results[id] ?? undefined`
abbrev defined : Option Json → Option Json
defined none = none
defined (some Json.null) = none
defined (some j) = some j

module _ (r : Redis) where
  unfoldable pub status_node : r.Store → String → Dict Json → String → DagStatusNode
  status_node s dag results id = record {
    id = id;
    depends_on = depends_on_of (get_all_nodes r s dag id);
    job_id = get_job_ids r s dag id;
    status = get_or (get_all_statuses r s dag id) pending;
    result = defined (Dict.get results id);
    failed_reason = get_failures r s dag id;
  }

  -- `none` is the 404. The description is returned beside the nodes.
  unfoldable pub find_dag : r.Store → String → Option (DagMeta × List DagStatusNode)
  unfolding status_node
  find_dag s dag = elim (get_meta r s dag) [
    | none ↦ none
    | some m ↦ some (m, map (status_node s dag (get_results r s dag m.node_ids)) m.node_ids)
  ]

-- What the queue answers for a job: its state, the value it returned and why it failed.
pub record JobReport : Type 0 where
  pub state : JobState
  pub result : Option Json
  pub failed_reason : Option String

pub record StepStatus : Type 0 where
  pub job_id : String
  pub name : Option String
  pub status : TaskStatus
  pub result : Option Json
  pub failed_reason : Option String

abbrev first_of : List String → Option String
first_of [] = none
first_of (x ∷ xs) = some x

abbrev rest_of : List String → List String
rest_of [] = []
rest_of (x ∷ xs) = xs

unfoldable pub step_status : String → Option String → Option JobReport → StepStatus
step_status id name none = record {
  job_id = id;
  name = name;
  status = TaskStatus.pending;
  result = none;
  failed_reason = none;
}
step_status id name (some j) = record {
  job_id = id;
  name = name;
  status = state_map j.state;
  result = j.result;
  failed_reason = j.failed_reason;
}

-- The loop of `findOne` over the ids, with the names beside them.
unfoldable pub step_statuses :
    (report : String → Option JobReport) → List String → List String → List StepStatus
unfolding step_status
step_statuses report [] names = []
step_statuses report (id ∷ ids) names =
    step_status id (first_of names) (report id) ∷ step_statuses report ids (rest_of names)

-- `none` is the 404. The description is returned beside the steps.
unfoldable pub find_workflow :
    (report : String → Option JobReport)
    → Option WorkflowMeta
    → Option (WorkflowMeta × List StepStatus)
unfolding step_statuses
find_workflow report none = none
find_workflow report (some m) = some (m, step_statuses report m.step_job_ids m.step_names)
