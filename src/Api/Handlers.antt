-- ===== src/Api/Handlers.antt =====
-- The handlers of apps/api/src/workflows/workflows.controller.ts, apps/api/src/tasks/tasks.controller.ts
-- and apps/api/src/admin/chaos.controller.ts that take a body, with the services they call.
use ai_task_orchestrator.Base.Given.{to_option}
use ai_task_orchestrator.Base.{
  ℕ, suc, String, List, [], ◌∷◌, map, Option, none, some, if◌then◌else◌, ◌==◌,
}
use ai_task_orchestrator.Base.Json.{Fields}
use ai_task_orchestrator.Base.Result.{Result, ok, err}
use ai_task_orchestrator.Queue.{Task}
use ai_task_orchestrator.Jobs.{Effect}
use ai_task_orchestrator.Tasks.{or_normal, create}
use ai_task_orchestrator.Workflow.{DagNodeInput, DagMeta}
use ai_task_orchestrator.Workflow.Store.{Redis}
use ai_task_orchestrator.Workflows.{Step, FlowJob, WorkflowMeta, create_chain, create_dag, DagError}
use ai_task_orchestrator.Chaos.{
  ChaosAction, kill_worker, pause_redis, inject_latency, ChaosDirective, trigger,
}
use ai_task_orchestrator.Api.{Validator}
use ai_task_orchestrator.Api.Bodies.{
  CreateTaskDto, to_task, check_task, ChainStepDto, CreateChainDto, DagNodeDto, TriggerChaosDto,
  to_chain, to_dag, to_trigger, check_chain, check_dag, check_trigger,
}

-- Why a request fails. `untyped` is none of the program: it marks a body that passes the decorators
-- and is yet no value of its class, as one with an array among its nodes.
pub data Refusal : Type 0 where
  invalid untyped type_error : Refusal
  unknown_action : String → Refusal
  dag_error : DagError → Refusal

-- `POST /tasks`, behind its guard and its interceptor.
abbrev pub send_task :
    (id now : String) → Option CreateTaskDto → Result Refusal (List Effect × Task)
send_task id now none = err untyped
send_task id now (some dto) = ok (
    create id now dto.user_id dto.payload dto.priority (to_option dto.model)
      (to_option dto.task_type))

unfoldable pub create_task_request :
    Validator → (id now : String) → Fields → Result Refusal (List Effect × Task)
create_task_request v id now body =
    if check_task v body then send_task id now (to_task body) else err invalid

-- `dto.steps`, each with the fresh id of its job.
abbrev pub steps_of : (uuid : ℕ → String) → ℕ → List ChainStepDto → List Step
steps_of uuid index [] = []
steps_of uuid index (s ∷ ss) =
    record {
      job_id = uuid index;
      name = s.name;
      payload = s.payload;
      task_type = to_option s.task_type;
      model = to_option s.model;
    }
    ∷ steps_of uuid (suc index) ss

abbrev pub input_of : DagNodeDto → DagNodeInput
input_of n = record {
  id = n.id;
  payload = n.payload;
  depends_on = to_option n.depends_on;
  task_type = to_option n.task_type;
  model = to_option n.model;
}

abbrev or_refuse : {A : Type 0} → Refusal → Option A → Result Refusal A
or_refuse e none = err e
or_refuse e (some a) = ok a

-- `POST /workflows/chain`
abbrev pub send_chain :
    (uuid : ℕ → String) (workflow_id now : String)
    → Option CreateChainDto
    → Result Refusal (FlowJob × WorkflowMeta)
send_chain uuid workflow_id now none = err untyped
send_chain uuid workflow_id now (some dto) = or_refuse type_error (
    create_chain
      (record {
        workflow_id = workflow_id;
        user_id = dto.user_id;
        priority = or_normal (to_option dto.priority);
        created_at = now;
      })
      (steps_of uuid 0 dto.steps))

unfoldable pub create_chain_request :
    Validator
    → (uuid : ℕ → String) (workflow_id now : String) → Fields
    → Result Refusal (FlowJob × WorkflowMeta)
create_chain_request v uuid workflow_id now body =
    if check_chain v body then send_chain uuid workflow_id now (to_chain body) else err invalid

abbrev pub to_action : String → Option ChaosAction
to_action s =
    if s == "killWorker"
    then some kill_worker
    else if s == "pauseRedis"
    then some pause_redis
    else if s == "injectLatency"
    then some inject_latency
    else none

abbrev pub send_trigger :
    ℕ → ChaosAction → Option TriggerChaosDto → Result Refusal (ChaosDirective × ℕ)
send_trigger now action none = err untyped
send_trigger now action (some dto) =
    ok (trigger now action (to_option dto.duration_ms) (to_option dto.latency_ms))

abbrev pub act : ℕ → String → Option ChaosAction → Fields → Result Refusal (ChaosDirective × ℕ)
act now name none body = err (unknown_action name)
act now name (some action) body = send_trigger now action (to_trigger body)

-- `POST /admin/chaos/:action`, behind its guard.
unfoldable pub trigger_request :
    Validator → ℕ → String → Fields → Result Refusal (ChaosDirective × ℕ)
trigger_request v now name body =
    if check_trigger v body then act now name (to_action name) body else err invalid

module _ (r : Redis) where
  open r use {Store}

  abbrev pub lift : {A : Type 0} → Result DagError A → Result Refusal A
  lift (err e) = err (dag_error e)
  lift (ok a) = ok a

  -- `POST /workflows/dag`
  unfoldable pub create_dag_request :
      Validator
      → (uuid : DagNodeInput → String) (dag now : String) → Store
      → Fields
      → Result Refusal ((Store × List Effect) × DagMeta)
  create_dag_request v uuid dag now s body =
      if check_dag v body
      then elim (to_dag body) [
        | none ↦ err untyped
        | some dto ↦ lift (
            create_dag r uuid dag now dto.user_id (to_option dto.priority) s
              (map input_of dto.nodes))
      ]
      else err invalid
