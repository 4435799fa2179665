-- ===== src/Worker/Processing.antt =====
-- `processJob` of the worker, from the job to its result. Logging and the histogram of durations are
-- left out.
use ai_task_orchestrator.Base.{
  ℕ, ◌+◌, ◌≤◌, ◌<◌, ◌≡◌, refl, ap, String, Bool, List, Option, none, some, if◌then◌else◌, ltb, ◌&&◌,
  arith, Bool-cases, inl, inr,
}
use ai_task_orchestrator.Base.Json
use ai_task_orchestrator.Base.Json.{Json, Fields}
use ai_task_orchestrator.Base.Result.{Result, ok, err}
use ai_task_orchestrator.Jobs.{JobData}
use ai_task_orchestrator.Workflow.Store.{Redis}
use ai_task_orchestrator.Models.{Clients, LlmResponse, LlmError, call, CostMetrics, track}
use ai_task_orchestrator.Router.{resolve}
use ai_task_orchestrator.Router.Choice.{resolve-IsRouted}
use ai_task_orchestrator.Chaos.{Scheduler}
use ai_task_orchestrator.Worker.{effective_payload}

-- Why an attempt fails. `unrouted` is none of the program: `resolve` finds a model for each job.
pub data JobError : Type 0 where
  simulated timed_out unrouted : JobError
  failed_call : LlmError → JobError

pub record JobResult : Type 0 where
  pub result : String
  pub model : String
  pub input_tokens : ℕ
  pub output_tokens : ℕ
  pub cost : ℕ
  pub processed_at : String

-- What the clock, the random numbers and the provider decide in an attempt: whether a failure is
-- simulated, the time at which the model is called, and how long its answer takes.
pub record Attempt : Type 0 where
  pub fails : Bool
  pub now : ℕ
  pub work_ms : ℕ
  pub processed_at : String

-- The artificial delay of an injectLatency window.
unfoldable pub delay : Scheduler → (now : ℕ) → ℕ
delay s now =
    if ltb now s.latency_until && ltb 0 s.injected_latency_ms then s.injected_latency_ms else 0

abbrev lifted : Result LlmError LlmResponse → Result JobError LlmResponse
lifted (err e) = err (failed_call e)
lifted (ok a) = ok a

-- `Promise.race([work, timeoutPromise])`; at one time the timer, which is older, comes first.
abbrev pub race : (timeout_ms ms : ℕ) → Result LlmError LlmResponse → Result JobError LlmResponse
race timeout_ms ms answer = if ltb ms timeout_ms then lifted answer else err timed_out

-- `(payload.prompt as string) ?? JSON.stringify(payload)`; the SDK is given `as_text j` where the
-- prompt is no text.
abbrev prompt_of :
    (stringify : Fields → String) (as_text : Json → String) → Fields → Option Json → String
prompt_of stringify as_text payload none = stringify payload
prompt_of stringify as_text payload (some Json.null) = stringify payload
prompt_of stringify as_text payload (some (Json.str s)) = s
prompt_of stringify as_text payload (some j) = as_text j

abbrev finished :
    CostMetrics
    → (job_id processed_at : String) → Result JobError LlmResponse
    → CostMetrics × Result JobError JobResult
finished metrics job_id processed_at (err e) = (metrics, err e)
finished metrics job_id processed_at (ok a) =
    let (metrics', record_) = track metrics job_id a.model a.input_tokens a.output_tokens in
    (
      metrics',
      ok record {
        result = a.content;
        model = a.model;
        input_tokens = a.input_tokens;
        output_tokens = a.output_tokens;
        cost = record_.cost_usd;
        processed_at = processed_at;
      },
    )

module _ (r : Redis) (stringify : Fields → String) (as_text : Json → String) (timeout_ms : ℕ) where
  open r use {Store}

  abbrev ask :
      Clients
      → Scheduler
      → CostMetrics
      → JobData
      → Attempt
      → Store × Fields
      → (model_id : Option String) → (Store × CostMetrics) × Result JobError JobResult
  ask clients chaos metrics job a (s, payload) none = ((s, metrics), err unrouted)
  ask clients chaos metrics job a (s, payload) (some model_id) =
      let prompt = prompt_of stringify as_text payload (Json.get payload "prompt") in
      let answer = race timeout_ms (delay chaos a.now + a.work_ms) (call clients model_id prompt) in
      let done = finished metrics job.id a.processed_at answer in ((s, done.0), done.1)

  unfoldable pub process_job :
      Clients
      → Scheduler
      → CostMetrics
      → Store
      → JobData
      → (children : List (String × Json)) → Attempt
      → (Store × CostMetrics) × Result JobError JobResult
  unfolding delay
  process_job clients chaos metrics s job children a =
      if a.fails
      then ((s, metrics), err simulated)
      else ask clients chaos metrics job a (effective_payload r s job children)
          (resolve clients job.model job.task_type)

-- In the window of an injected latency that reaches the time limit no answer is used.
pub race-delay :
    (chaos : Scheduler) (now timeout_ms work_ms : ℕ) (answer : Result LlmError LlmResponse)
    → now < chaos.latency_until
    → 0 < timeout_ms
    → timeout_ms ≤ chaos.injected_latency_ms
    → race timeout_ms (delay chaos now + work_ms) answer ≡ err timed_out
unfolding delay
race-delay chaos now timeout_ms work_ms answer h k l = ground (arith, h, k, l)

module _ (r : Redis) (stringify : Fields → String) (as_text : Json → String) (timeout_ms : ℕ)
    (clients : Clients) (chaos : Scheduler) (metrics : CostMetrics) (job : JobData) (a : Attempt)
    (h : a.now < chaos.latency_until) (positive : 0 < timeout_ms)
    (reaches : timeout_ms ≤ chaos.injected_latency_ms) where
  open r use {Store}

  ask-delayed :
      (p : Store × Fields) (model_id : String)
      → ask r stringify as_text timeout_ms clients chaos metrics job a p (some model_id)
        ≡ ((p.0, metrics), err timed_out)
  ask-delayed (s, payload) model_id =
      let prompt = prompt_of stringify as_text payload (Json.get payload "prompt") in
      ap
        (λ x. (
          (s, (finished metrics job.id a.processed_at x).0),
          (finished metrics job.id a.processed_at x).1,
        ))
        (race-delay chaos a.now timeout_ms a.work_ms (call clients model_id prompt) h positive
          reaches)

  -- What an attempt in such a window leaves: a node that is active, and an error.
  pub process_job-delayed :
      (s : Store) (children : List (String × Json))
      → process_job r stringify as_text timeout_ms clients chaos metrics s job children a ≡ (
        (if a.fails then s else (effective_payload r s job children).0, metrics),
        err (if a.fails then simulated else timed_out),
      )
  unfolding process_job delay
  process_job-delayed s children = elim (Bool-cases a.fails) [
    | inl f ↦ rw f refl
    | inr f ↦
        let (m, e, known, why) = resolve-IsRouted clients job.model job.task_type in
        rw (f, e) (ask-delayed (effective_payload r s job children) m)
  ]
