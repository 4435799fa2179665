-- ===== src/Api/Examples.antt =====
-- Bodies that the decorators admit.
use ai_task_orchestrator.Base.{
  [], ◌∷◌, ℕ, ◌+◌, ◌≤◌, ◌≡◌, ◌≢◌, refl, String, true, List, none, some, ◌⊎◌, ◌↔◌, get_or, map,
}
use ai_task_orchestrator.Base.Json
use ai_task_orchestrator.Base.Json.{Json, Items, Fields, end, field}
use ai_task_orchestrator.Base.Result.{ok, err}
use ai_task_orchestrator.Jobs.{Effect, add, JobData, JobOptions, JobState}
use ai_task_orchestrator.Queue.{Task, get_user_queue_name}
use ai_task_orchestrator.Workflow.{DagMeta}
use ai_task_orchestrator.Workflow.Memory.{memory, blank}
use ai_task_orchestrator.Workflow.Sort.{DagValidationError, no_nodes}
use ai_task_orchestrator.Workflow.Sort.Outcome.{Explains}
use ai_task_orchestrator.Workflows.{FlowJob, WorkflowMeta, bad_request, normalise}
use ai_task_orchestrator.Chaos.{ChaosDirective, inject_latency}
use ai_task_orchestrator.Api.{AreObjects}
use ai_task_orchestrator.Api.Decorators.{decorators}
use ai_task_orchestrator.Api.Bodies.{
  CreateTaskDto, CreateDagDto, to_task, to_dag, check_task, check_chain, check_step, check_dag,
  check_node, check_trigger,
}
use ai_task_orchestrator.Tasks.{queued_priority, or_normal, state_map, find_one}
use ai_task_orchestrator.Api.Handlers.{
  input_of, dag_error, create_task_request, create_chain_request, create_dag_request,
  trigger_request,
}
use ai_task_orchestrator.Api.Admitted.{to_task-typed}
use ai_task_orchestrator.Api.Requests.{
  create_task_request-found, create_chain_request-answered, trigger_request-bounded,
  create_dag_request-answered,
}

abbrev payload : Json
payload = Json.obj (field "text" (Json.str "hi") end)

-- The priority is null.
abbrev task_body : Fields
task_body =
    field "userId" (Json.str "alice") (field "priority" Json.null (field "payload" payload end))

abbrev step_body : String → Json
step_body name = Json.obj (field "name" (Json.str name) (field "payload" payload end))

abbrev chain_body : Fields
chain_body = field "userId" (Json.str "alice") (
    field "steps"
      (Json.arr (Items.cons (step_body "draft") (Items.cons (step_body "review") Items.nil))) end)

abbrev node_body : Json
node_body = Json.obj (field "id" (Json.str "A") (field "payload" payload end))

abbrev dag_body : Fields
dag_body =
    field "userId" (Json.str "alice")
      (field "nodes" (Json.arr (Items.cons node_body Items.nil)) end)

abbrev trigger_body : Fields
trigger_body = field "durationMs" (Json.num 20000) end

checks_run : Unit {0}
unfolding check_task check_chain check_step check_dag check_node check_trigger Json.get
checks_run = tt

check_task-body : check_task decorators task_body ≡ true
unfolding checks_run
check_task-body = refl

check_chain-body : check_chain decorators chain_body ≡ true
unfolding checks_run
check_chain-body = refl

check_dag-body : check_dag decorators dag_body ≡ true
unfolding checks_run
check_dag-body = refl

check_trigger-body : check_trigger decorators trigger_body ≡ true
unfolding checks_run
check_trigger-body = refl

chain_objects : AreObjects (Json.get chain_body "steps")
unfolding checks_run
chain_objects = ((_, refl), ((_, refl), tt))

dag_objects : AreObjects (Json.get dag_body "nodes")
unfolding checks_run
dag_objects = ((_, refl), tt)

task_example :
    (dto : CreateTaskDto) × (to_task task_body ≡ some dto)
    × (dto.user_id ≢ "")
    × ((queued_priority dto.priority ≡ none) ↔ (Json.get task_body "priority" ≡ some Json.null))
task_example = to_task-typed decorators task_body check_task-body

task_request_example :
    (user : String) × (j : JobData) × (o : JobOptions) × (task : Task) × (create_task_request
        decorators "job-1" "2026-04-18" task_body
      ≡ ok (add (get_user_queue_name user) j o ∷ [], task))
    × (Json.get task_body "userId" ≡ some (Json.str user))
    × (user ≢ "")
    × ((o.priority ≡ none) ↔ (Json.get task_body "priority" ≡ some Json.null))
    × (find_one "job-1" (some (record { job = j; job_id = o.job_id; state = JobState.active }))
        ≡ ok (record task {
          priority = some (or_normal task.priority);
          status = state_map JobState.active;
          model = none;
          task_type = none;
        }))
task_request_example =
    create_task_request-found decorators "job-1" "2026-04-18" task_body JobState.active
      check_task-body

chain_request_example :
    (tree : FlowJob) × (m : WorkflowMeta) × (create_chain_request decorators
        (λ n. "job")
        "wf-1"
        "2026-04-18"
        chain_body
      ≡ ok (tree, m))
chain_request_example =
    create_chain_request-answered decorators (λ n. "job") "wf-1" "2026-04-18" chain_body
      check_chain-body chain_objects

trigger_example :
    (d : ChaosDirective) × (ttl : ℕ) × (trigger_request decorators 1000 "injectLatency" trigger_body
      ≡ ok (d, ttl))
    × (d.action ≡ inject_latency)
    × (1000 + 1000 ≤ d.until)
    × (d.until ≤ 1000 + 120000)
    × (get_or d.latency_ms 0 ≤ 120000)
    × (1000 + ttl ≡ d.until + 2000)
trigger_example =
    trigger_request-bounded decorators 1000 "injectLatency" inject_latency trigger_body
      check_trigger-body refl

dag_request_example :
    (dto : CreateDagDto) × (to_dag dag_body ≡ some dto)
    × (((t : memory.Store) × (first : List Effect) × (m : DagMeta) × (create_dag_request memory
              decorators
              (λ n. n.id)
              "dag-1"
              "2026-04-18"
              blank
              dag_body
            ≡ ok ((t, first), m)))
        ⊎ ((e : DagValidationError) × (create_dag_request memory decorators
                (λ n. n.id)
                "dag-1"
                "2026-04-18"
                blank
                dag_body
              ≡ err (dag_error (bad_request e)))
            × Explains (normalise (map input_of dto.nodes)) e
            × (e ≢ no_nodes)))
dag_request_example =
    create_dag_request-answered decorators memory (λ n. n.id) "dag-1" "2026-04-18" blank dag_body
      check_dag-body dag_objects
