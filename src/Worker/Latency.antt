-- ===== src/Worker/Latency.antt =====
-- All attempts of one job, from the fetch to the `completed` or `failed` event, while the worker polls
-- the chaos directive that `POST /admin/chaos/injectLatency` has written.
pub mod Window
pub mod Spacing
use ai_task_orchestrator.Base.{ℕ, ◌+◌, String, Bool, List, [], ◌∷◌, ◌++◌, Option, some}
use ai_task_orchestrator.Base.Json.{Json, Fields}
use ai_task_orchestrator.Base.Result.{Result, ok, err}
use ai_task_orchestrator.Jobs.{JobData, Effect}
use ai_task_orchestrator.Workflow.{DagNodeInput}
use ai_task_orchestrator.Workflow.Store.{Redis}
use ai_task_orchestrator.Models.{Clients, CostMetrics}
use ai_task_orchestrator.Chaos.{Scheduler, ChaosDirective, poll_chaos}
use ai_task_orchestrator.Worker.{Counters, on_failed, on_completed}
use ai_task_orchestrator.Worker.Processing.{JobError, JobResult, Attempt, process_job}

-- The polls at the given times, as long as the directive is stored.
unfoldable pub poll_all : ChaosDirective → List ℕ → Scheduler → Scheduler
unfolding poll_chaos
poll_all d [] chaos = chaos
poll_all d (now ∷ later) chaos = poll_all d later (poll_chaos now (some d) chaos)

-- What surrounds the attempts: the configuration, the job, and how texts are made of values.
pub record Setting : Type 0 where
  pub clients : Clients
  pub timeout_ms : ℕ
  pub attempts : Option ℕ
  pub id : String
  pub job : JobData
  pub children : List (String × Json)
  pub now : String
  pub stringify : Fields → String
  pub as_text : Json → String
  pub message : JobError → String
  pub timed_out : String → Bool
  pub to_json : JobResult → Json
  pub uuid : DagNodeInput → String

module _ (r : Redis) (g : Setting) (d : ChaosDirective) where
  open r use {Store}

  -- The event that ends an attempt. `made` counts the attempts before it.
  unfoldable pub attempt_ends :
      (made : ℕ) → Store × Counters → Result JobError JobResult → (Store × Counters) × List Effect
  unfolding on_failed on_completed
  attempt_ends made (s, c) (err e) =
      on_failed r g.timed_out g.now (s, c)
        (record { id = g.id; job = g.job; attempts = g.attempts; attempts_made = made + 1 })
        (g.message e)
  attempt_ends made (s, c) (ok v) = on_completed r g.uuid g.now (s, c) g.job (g.to_json v)

  -- After a success no attempt follows.
  abbrev pub proceed :
      Result JobError JobResult
      → CostMetrics
      → (Store × Counters) × List Effect
      → ((Store × Counters) × CostMetrics → ((Store × Counters) × CostMetrics) × List Effect)
      → ((Store × Counters) × CostMetrics) × List Effect
  proceed (ok v) metrics (x, effects) again = ((x, metrics), effects)
  proceed (err e) metrics (x, effects) again =
      let (y, later) = again (x, metrics) in (y, effects ++ later)

  -- The attempts, each with the times of the polls since the one before.
  unfoldable pub run_attempts :
      (made : ℕ)
      → Scheduler
      → (Store × Counters) × CostMetrics
      → List (List ℕ × Attempt)
      → ((Store × Counters) × CostMetrics) × List Effect
  unfolding attempt_ends poll_all process_job
  run_attempts made chaos x [] = (x, [])
  run_attempts made chaos ((s, c), metrics) ((polls, a) ∷ rest) =
      let chaos' = poll_all d polls chaos in
      let (left, answer) =
        process_job r g.stringify g.as_text g.timeout_ms g.clients chaos' metrics s g.job g.children
          a in
      proceed answer left.1 (attempt_ends made (left.0, c) answer)
        (λ y. run_attempts (made + 1) chaos' y rest)
