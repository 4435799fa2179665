-- ===== src/Worker/Examples.antt =====
-- Instances of the theorems on failures: a job with three attempts.
use ai_task_orchestrator.Base.{
  ℕ, ◌+◌, ◌≤◌, ◌≡◌, refl, String, ◌==◌, Bool, true, false, List, [], ◌∷◌, ◌++◌, none, some, arith,
  length,
}
use ai_task_orchestrator.Base.Json.{Json, end}
use ai_task_orchestrator.Base.Result.{ok}
use ai_task_orchestrator.Models.{CostMetrics}
use ai_task_orchestrator.Chaos.{
  Scheduler, inject_latency, trigger, poll_chaos, resume, follow, apply,
}
use ai_task_orchestrator.Worker.Processing.{JobError, timed_out, Attempt, delay}
use ai_task_orchestrator.Worker.Latency.{Setting, run_attempts, poll_all}
use ai_task_orchestrator.Worker.Latency.Window.{Spent, latency_window}
use ai_task_orchestrator.Worker.Latency.Spacing.{delayed, IsSequential, latency_window-once}
use ai_task_orchestrator.Jobs.{JobData, Effect}
use ai_task_orchestrator.Workflow.Memory.{memory, blank}
use ai_task_orchestrator.Worker.{Counters, dag_of, mark_node_failed}
use ai_task_orchestrator.Worker.Failures.{fail_run, letter, fail_run_lem}

abbrev node_job_data : JobData
node_job_data = record {
  id = "job-1";
  user_id = "alice";
  priority = none;
  task_type = none;
  model = none;
  payload = end;
  created_at = "2026-04-18";
  dag_id = some "dag-1";
  dag_node_id = some "A";
  workflow_id = none;
  step_name = none;
  step_index = none;
}

abbrev zero_counters : Counters
zero_counters = record { task_completed = 0; task_failed = 0; task_timeout = 0; task_dlq = 0 }

abbrev early : List String
early = "slow" ∷ "slower" ∷ []

abbrev run_of : List String → (memory.Store × Counters) × List Effect
run_of reasons =
    fail_run memory (λ reason. false) "now" "job-1" node_job_data (some 3) 0 (blank, zero_counters)
      reasons

exhausted_example :
    ((run_of (early ++ "down" ∷ [])).1
      ≡ letter memory (λ reason. false) "now" "job-1" node_job_data (some 3) "down" ∷ [])
    × ((run_of (early ++ "down" ∷ [])).0.0
        ≡ mark_node_failed memory blank (dag_of node_job_data) "down")
    × ((run_of (early ++ "down" ∷ [])).0.1.task_failed ≡ 0 + length early + 1)
    × ((run_of (early ++ "down" ∷ [])).0.1.task_dlq ≡ 0 + 1)
exhausted_example =
    fail_run_lem memory (λ reason. false) "now" "job-1" node_job_data (some 3) 0 blank zero_counters
      early "down" (omega arith)

abbrev idle : Scheduler
idle = record {
  workers = [];
  last_chaos_issued_at = 0;
  injected_latency_ms = 0;
  latency_until = 0;
  workers_suppressed_until = 0;
  paused_until = 0;
  workers_paused = false;
}

abbrev zero_metrics : CostMetrics
zero_metrics = record { task_cost_usd = 0; input_tokens = 0; output_tokens = 0 }

abbrev explain : JobError → String
explain timed_out = "timed out"
explain _ = "Simulated failure"

abbrev three_attempts : Setting
three_attempts = record {
  clients = record {
    anthropic = none;
    openai = none;
    ollama = λ model prompt limit.
        ok (record { content = prompt; model = model; input_tokens = 1; output_tokens = 1 });
  };
  timeout_ms = 30000;
  attempts = some 3;
  id = "job-1";
  job = node_job_data;
  children = [];
  now = "now";
  stringify = λ _. "";
  as_text = λ _. "";
  message = explain;
  timed_out = λ reason. reason == "timed out";
  to_json = λ _. Json.null;
  uuid = λ n. n.id;
}

abbrev attempt_at : (fails : Bool) → ℕ → Attempt
attempt_at fails now = record { fails = fails; now = now; work_ms = 10; processed_at = "now" }

abbrev first_attempt : List ℕ × Attempt
first_attempt = ([], attempt_at false 2000)

abbrev later_attempts : List (List ℕ × Attempt)
later_attempts =
    (3000 ∷ 4000 ∷ [], attempt_at true 40000) ∷ (41000 ∷ [], attempt_at false 80000) ∷ []

-- A window of 100 s.
window_example :
    Spent memory three_attempts zero_counters zero_metrics first_attempt later_attempts (
      run_attempts memory three_attempts
        (trigger 1000 inject_latency (some 100000) none).0
        0
        (poll_chaos 1500 (some (trigger 1000 inject_latency (some 100000) none).0) idle)
        ((blank, zero_counters), zero_metrics)
        (first_attempt ∷ later_attempts))
window_example =
    latency_window memory three_attempts 1000 1500 (some 100000) none idle blank zero_counters
      zero_metrics first_attempt later_attempts (omega arith) (omega arith) refl refl (omega arith)
      (
        tt,
        (
          omega arith,
          ((omega arith, (omega arith, tt)), (omega arith, ((omega arith, tt), (omega arith, tt)))),
        ),
      )
      refl

first_over :
    IsSequential 30000
      (trigger 1000 inject_latency none none).0
      idle
      ((1500 ∷ [], attempt_at false 2000) ∷ (33000 ∷ [], attempt_at false 33500) ∷ [])
unfolding poll_all poll_chaos resume follow apply trigger delay
first_over = ((omega arith, tt), (tt, tt))

-- The default window, which is over when the job is tried again.
once_example :
    delayed
      (trigger 1000 inject_latency none none).0
      idle
      ((1500 ∷ [], attempt_at false 2000) ∷ (33000 ∷ [], attempt_at false 33500) ∷ [])
    ≤ 1
once_example =
    latency_window-once 30000 1000 none none idle
      ((1500 ∷ [], attempt_at false 2000) ∷ (33000 ∷ [], attempt_at false 33500) ∷ []) (omega arith)
      (omega arith) (omega arith) (omega arith, (omega arith, tt)) first_over
