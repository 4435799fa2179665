-- ===== src/Tasks/Examples.antt =====
-- Instances of the theorems on the task service.
use ai_task_orchestrator.Base.{◌≡◌, [], none, some}
use ai_task_orchestrator.Base.Json.{Json, end}
use ai_task_orchestrator.Base.Result.{ok}
use ai_task_orchestrator.Queue.{TaskPriority, complex}
use ai_task_orchestrator.Jobs.{DeadLetter}
use ai_task_orchestrator.Models.{Clients}
use ai_task_orchestrator.Router.{resolve}
use ai_task_orchestrator.Worker.{on_dag_node_completed}
use ai_task_orchestrator.Workflow.Memory.{memory, blank}
use ai_task_orchestrator.Tasks.{retried}
use ai_task_orchestrator.Tasks.Retry.{retried_forgets}

abbrev local_only : Clients
local_only = record {
  anthropic = none;
  openai = none;
  ollama = λ model prompt limit.
      ok (record { content = prompt; model = model; input_tokens = 1; output_tokens = 1 });
}

-- A node of a DAG that asked for the model gpt-4o.
abbrev dead : DeadLetter
dead = record {
  job = record {
    id = "job-1";
    user_id = "alice";
    priority = some TaskPriority.high;
    task_type = some complex;
    model = some "gpt-4o";
    payload = end;
    created_at = "2026-04-18";
    dag_id = some "dag-1";
    dag_node_id = some "A";
    workflow_id = none;
    step_name = none;
    step_index = none;
  };
  original_job_id = "job-1";
  failed_reason = "timed out";
  failed_at = "2026-04-18";
}

forgets_example :
    (resolve local_only (retried "job-2" dead).model (retried "job-2" dead).task_type
      ≡ some "llama3.2")
    × (on_dag_node_completed memory (λ n. n.id) "2026-04-19" blank (retried "job-2" dead) Json.null
        ≡ (blank, []))
forgets_example =
    retried_forgets "job-2" dead local_only memory (λ n. n.id) "2026-04-19" blank Json.null
