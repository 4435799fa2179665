-- ===== src/Worker/Latency/Window.antt =====
-- The window of an injectLatency directive, from the API to the dead letter queue.
use ai_task_orchestrator.Base.{
  ℕ, ◌+◌, ◌≤◌, ◌<◌, ◌≡◌, refl, ap, ◌∙◌, true, false, List, [], ◌∷◌, ◌++◌, Option, some, get_or, leb,
  eqb, if◌then◌else◌, arith, length, Bool-cases, inl, inr,
}
use ai_task_orchestrator.Base.Result.{err}
use ai_task_orchestrator.Jobs.{Effect, add_dead_letter}
use ai_task_orchestrator.Workflow.Store.{Redis}
use ai_task_orchestrator.Models.{CostMetrics}
use ai_task_orchestrator.Chaos.{
  inject_latency, Scheduler, ChaosDirective, resume, follow, apply, poll_chaos, trigger,
  default_latency_ms, default_duration_ms,
}
use ai_task_orchestrator.Worker.{Counters, on_failed, effective_payload, mark_node_failed, dag_of}
use ai_task_orchestrator.Worker.Processing.{
  JobError, simulated, timed_out, Attempt, process_job-delayed,
}
use ai_task_orchestrator.Worker.Latency.{poll_all, Setting, run_attempts, attempt_ends, proceed}

-- The worker delays calls as the directive says.
record Delays (d : ChaosDirective) (s : Scheduler) : Type 0 where
  latency : s.injected_latency_ms ≡ get_or d.latency_ms 0
  window : s.latency_until ≡ d.until

poll_chaos-Delays :
    (d : ChaosDirective) (s : Scheduler) (now : ℕ)
    → d.action ≡ inject_latency
    → now < d.until
    → Delays d (poll_chaos now (some d) s)
unfolding poll_chaos follow apply
poll_chaos-Delays d s now k h =
    let in_window : leb d.until now ≡ false = ground arith in
    elim (Bool-cases (eqb d.issued_at (resume now s).last_chaos_issued_at)) [
      | inl t ↦ rw (in_window, t, k) (record { latency = refl; window = refl })
      | inr f ↦ rw (in_window, f, k) (record { latency = refl; window = refl })
    ]

abbrev pub AllBelow : ℕ → List ℕ → Type 0
AllBelow until [] = Unit {0}
AllBelow until (n ∷ ns) = (n < until) × AllBelow until ns

poll_all-Delays :
    (d : ChaosDirective) (s : Scheduler) (ns : List ℕ)
    → d.action ≡ inject_latency
    → AllBelow d.until ns
    → Delays d s
    → Delays d (poll_all d ns s)
unfolding poll_all
poll_all-Delays d s [] k h del = del
poll_all-Delays d s (n ∷ ns) k h del =
    poll_all-Delays d (poll_chaos n (some d) s) ns k h.1 (poll_chaos-Delays d s n k h.0)

-- Polls and attempts that start in the window.
abbrev pub AllDuring : ℕ → List (List ℕ × Attempt) → Type 0
AllDuring until [] = Unit {0}
AllDuring until ((polls, a) ∷ rest) =
    AllBelow until polls × ((a.now < until) × AllDuring until rest)

abbrev pub error_of : Attempt → JobError
error_of a = if a.fails then simulated else timed_out

-- The failures by the time limit.
abbrev pub slow : List (List ℕ × Attempt) → ℕ
slow [] = 0
slow ((polls, a) ∷ rest) = (if a.fails then 0 else 1) + slow rest

abbrev pub last_of : List ℕ × Attempt → List (List ℕ × Attempt) → Attempt
last_of x [] = x.1
last_of x (y ∷ rest) = last_of y rest

module _ (r : Redis) (g : Setting) where
  open r use {Store}

  abbrev pub letter_of : Attempt → Effect
  letter_of a = add_dead_letter (record {
    job = g.job;
    original_job_id = g.id;
    failed_reason = g.message (error_of a);
    failed_at = g.now;
  })

  -- What the attempts leave: one dead letter, no cost, and the counters.
  abbrev pub Spent :
      Counters
      → CostMetrics
      → List ℕ × Attempt
      → List (List ℕ × Attempt)
      → ((Store × Counters) × CostMetrics) × List Effect
      → Type 0
  Spent c metrics x rest out =
      (out.1 ≡ letter_of (last_of x rest) ∷ [])
      × (out.0.1 ≡ metrics)
      × (out.0.0.1.task_failed ≡ c.task_failed + length (x ∷ rest))
      × (out.0.0.1.task_timeout ≡ c.task_timeout + slow (x ∷ rest))
      × (out.0.0.1.task_dlq ≡ c.task_dlq + 1)
      × (out.0.0.1.task_completed ≡ c.task_completed)

module _ (r : Redis) (g : Setting) (d : ChaosDirective) (k : d.action ≡ inject_latency)
    (positive : 0 < g.timeout_ms) (reaches : g.timeout_ms ≤ get_or d.latency_ms 0) where
  open r use {Store}

  failed_attempt :
      (made : ℕ) (s : Scheduler) (c : Counters) (metrics : CostMetrics) (t : Store) (a : Attempt)
      (polls : List ℕ) (rest : List (List ℕ × Attempt))
      → Delays d s
      → AllBelow d.until polls
      → a.now < d.until
      → (t' : Store) × (run_attempts r g d made s ((t, c), metrics) ((polls, a) ∷ rest) ≡ (
          let (x, effects) = attempt_ends r g d made (t', c) (err (error_of a)) in
          let (y, later) = run_attempts r g d (made + 1) (poll_all d polls s) (x, metrics) rest in
          (y, effects ++ later)))
  unfolding run_attempts
  failed_attempt made s c metrics t a polls rest del before h =
      let del' = poll_all-Delays d s polls k before del in
      (
        (if a.fails then t else (effective_payload r t g.job g.children).0),
        ap
            (λ q.
              proceed r g d q.1 q.0.1 (attempt_ends r g d made (q.0.0, c) q.1)
                (λ y. run_attempts r g d (made + 1) (poll_all d polls s) y rest))
            (process_job-delayed r g.stringify g.as_text g.timeout_ms g.clients (poll_all d polls s)
              metrics g.job a (omega (arith, h, del'.window)) positive
              (omega (arith, reaches, del'.latency)) t g.children),
      )

  module _ (late : g.timed_out (g.message timed_out) ≡ true)
      (other : g.timed_out (g.message simulated) ≡ false) where
    -- The counters after a failure that is not the last one.
    abbrev counted : Counters → Attempt → Counters
    counted c a = record c {
      task_failed = c.task_failed + 1;
      task_timeout = c.task_timeout + (if g.timed_out (g.message (error_of a)) then 1 else 0);
    }

    counted_timeout :
        (c : Counters) (a : Attempt)
        → (counted c a).task_timeout ≡ c.task_timeout + (if a.fails then 0 else 1)
    counted_timeout c a = elim (Bool-cases a.fails) [
      | inl f ↦ rw (f, other) refl
      | inr f ↦ rw (f, late) refl
    ]

    last_ends :
        (made : ℕ) (t : Store) (c : Counters) (a : Attempt)
        → get_or g.attempts 1 ≤ made + 1
        → attempt_ends r g d made (t, c) (err (error_of a)) ≡ (
          (
            mark_node_failed r t (dag_of g.job) (g.message (error_of a)),
            record (counted c a) { task_dlq = c.task_dlq + 1 },
          ),
          letter_of r g a ∷ [],
        )
    unfolding attempt_ends on_failed
    last_ends made t c a h =
        let reached : leb (get_or g.attempts 1) (made + 1) ≡ true = ground arith in rw reached refl

    early_ends :
        (made : ℕ) (t : Store) (c : Counters) (a : Attempt)
        → made + 1 < get_or g.attempts 1
        → attempt_ends r g d made (t, c) (err (error_of a)) ≡ ((t, counted c a), [])
    unfolding attempt_ends on_failed
    early_ends made t c a h =
        let below : leb (get_or g.attempts 1) (made + 1) ≡ false = ground arith in rw below refl

    attempts-Spent :
        (made : ℕ) (s : Scheduler) (c : Counters) (metrics : CostMetrics) (t : Store)
        (x : List ℕ × Attempt) (rest : List (List ℕ × Attempt))
        → Delays d s
        → AllDuring d.until (x ∷ rest)
        → made + length (x ∷ rest) ≡ get_or g.attempts 1
        → Spent r g c metrics x rest (run_attempts r g d made s ((t, c), metrics) (x ∷ rest))
    unfolding run_attempts
    attempts-Spent made s c metrics t (polls, a) [] del (before, (h, _)) e =
        let (t', q) = failed_attempt made s c metrics t a polls [] del before h in
        rw
          (q
            ∙ ap (λ out. ((out.0, metrics), out.1 ++ []))
                (last_ends made t' c a (omega (arith, e))))
          (refl, refl, refl, omega (arith, counted_timeout c a), refl, refl)
    attempts-Spent made s c metrics t (polls, a) (y ∷ rest) del (before, (h, others)) e =
        let (t', q) = failed_attempt made s c metrics t a polls (y ∷ rest) del before h in
        let s' = poll_all d polls s in
        let again =
          λ (x : Store × Counters). run_attempts r g d (made + 1) s' (x, metrics) (y ∷ rest) in
        let ih =
          attempts-Spent (made + 1) s' (counted c a) metrics t' y rest
            (poll_all-Delays d s polls k before del) others (omega (arith, e)) in
        rw
          (q
            ∙ ap (λ out. ((again out.0).0, out.1 ++ (again out.0).1))
                (early_ends made t' c a (omega (arith, e))))
          (ih.0, ih.1, omega (arith, ih.2), omega (arith, ih.3, counted_timeout c a), ih.4, ih.5)

-- The admin injects a latency of at least the time limit, and the worker polls the directive before it
-- ends. If all attempts that a job may make start within its window, whatever other polls lie between
-- them, none of them completes: the last one adds the only dead letter, no cost is recorded, and each
-- attempt counts as a failure, as a timeout too if its failure is not simulated.
pub latency_window :
    (r : Redis) (g : Setting) (issued polled : ℕ) (duration latency : Option ℕ) (chaos : Scheduler)
    (t : r.Store) (c : Counters) (metrics : CostMetrics) (x : List ℕ × Attempt)
    (rest : List (List ℕ × Attempt))
    → 0 < g.timeout_ms
    → g.timeout_ms ≤ get_or latency default_latency_ms
    → g.timed_out (g.message timed_out) ≡ true
    → g.timed_out (g.message simulated) ≡ false
    → polled < issued + get_or duration default_duration_ms
    → AllDuring (issued + get_or duration default_duration_ms) (x ∷ rest)
    → length (x ∷ rest) ≡ get_or g.attempts 1
    → Spent r g c metrics x rest (
        run_attempts r g
          (trigger issued inject_latency duration latency).0
          0
          (poll_chaos polled (some (trigger issued inject_latency duration latency).0) chaos)
          ((t, c), metrics)
          (x ∷ rest))
unfolding trigger
latency_window r g issued polled duration latency chaos t c metrics x rest positive reaches late
      other first during e =
    let d = (trigger issued inject_latency duration latency).0 in
    attempts-Spent r g d refl positive reaches late other 0 (poll_chaos polled (some d) chaos) c
      metrics t x rest (poll_chaos-Delays d chaos polled refl first) during (omega (arith, e))
