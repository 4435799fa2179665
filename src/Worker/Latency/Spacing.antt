-- ===== src/Worker/Latency/Spacing.antt =====
-- How often an injectLatency window meets the attempts of one job.
use ai_task_orchestrator.Base.{
  ℕ, ◌+◌, ◌≤◌, ◌≡◌, refl, Bool, true, false, List, [], ◌∷◌, Option, some, get_or, leb, eqb, ltb,
  ◌&&◌, not, if◌then◌else◌, arith, Bool-cases, inl, inr, ◌⊎◌,
}
use ai_task_orchestrator.Chaos.{
  inject_latency, Scheduler, ChaosDirective, resume, follow, apply, poll_chaos, trigger,
  default_duration_ms, default_latency_ms,
}
use ai_task_orchestrator.Worker.Processing.{Attempt, delay}
use ai_task_orchestrator.Worker.Latency.{poll_all}

resume-latency_until : (now : ℕ) (s : Scheduler) → (resume now s).latency_until ≡ s.latency_until
unfolding resume
resume-latency_until now s = elim (Bool-cases (s.workers_paused && leb s.paused_until now)) [
  | inl t ↦ rw t refl
  | inr f ↦ rw f refl
]

poll_chaos-latency_until :
    (d : ChaosDirective) (s : Scheduler) (now : ℕ)
    → d.action ≡ inject_latency
    → s.latency_until ≤ d.until
    → (poll_chaos now (some d) s).latency_until ≤ d.until
unfolding poll_chaos follow apply
poll_chaos-latency_until d s now k h =
    let same = resume-latency_until now s in
    elim (Bool-cases (leb d.until now)) [
      | inl t ↦ rw t (omega (arith, same))
      | inr f ↦ elim (Bool-cases (eqb d.issued_at (resume now s).last_chaos_issued_at)) [
        | inl u ↦ rw (f, u, k) (omega arith)
        | inr u ↦ rw (f, u, k) (omega arith)
      ]
    ]

poll_all-latency_until :
    (d : ChaosDirective) (s : Scheduler) (ns : List ℕ)
    → d.action ≡ inject_latency
    → s.latency_until ≤ d.until
    → (poll_all d ns s).latency_until ≤ d.until
unfolding poll_all
poll_all-latency_until d s [] k h = h
poll_all-latency_until d s (n ∷ ns) k h =
    poll_all-latency_until d (poll_chaos n (some d) s) ns k (poll_chaos-latency_until d s n k h)

-- The model is called, after an artificial delay.
abbrev pub is_delayed : Scheduler → Attempt → Bool
is_delayed s a = not a.fails && ltb 0 (delay s a.now)

abbrev pub delayed : ChaosDirective → Scheduler → List (List ℕ × Attempt) → ℕ
delayed d s [] = 0
delayed d s ((polls, a) ∷ rest) =
    (if is_delayed (poll_all d polls s) a then 1 else 0) + delayed d (poll_all d polls s) rest

abbrev pub AllFrom : ℕ → List (List ℕ × Attempt) → Type 0
AllFrom from [] = Unit {0}
AllFrom from ((polls, a) ∷ rest) = (from ≤ a.now) × AllFrom from rest

-- When an attempt is over: at once if a failure is simulated, otherwise when `Promise.race` settles.
abbrev pub ended : (timeout_ms : ℕ) → Scheduler → Attempt → ℕ
ended timeout_ms s a =
    if a.fails
    then a.now
    else if ltb (delay s a.now + a.work_ms) timeout_ms
    then a.now + (delay s a.now + a.work_ms)
    else a.now + timeout_ms

-- An attempt starts when those before it are over.
abbrev pub IsSequential :
    (timeout_ms : ℕ) → ChaosDirective → Scheduler → List (List ℕ × Attempt) → Type 0
IsSequential timeout_ms d s [] = Unit {0}
IsSequential timeout_ms d s ((polls, a) ∷ rest) =
    AllFrom (ended timeout_ms (poll_all d polls s) a) rest
    × IsSequential timeout_ms d (poll_all d polls s) rest

AllFrom-le : (m n : ℕ) (xs : List (List ℕ × Attempt)) → m ≤ n → AllFrom n xs → AllFrom m xs
AllFrom-le m n [] h all = tt
AllFrom-le m n ((polls, a) ∷ xs) h (k, all) = (omega arith, AllFrom-le m n xs h all)

is_delayed-after : (s : Scheduler) (a : Attempt) → s.latency_until ≤ a.now → is_delayed s a ≡ false
unfolding delay
is_delayed-after s a h = ground arith

delayed-after :
    (d : ChaosDirective) (s : Scheduler) (xs : List (List ℕ × Attempt))
    → d.action ≡ inject_latency
    → s.latency_until ≤ d.until
    → AllFrom d.until xs
    → delayed d s xs ≡ 0
delayed-after d s [] k h all = refl
delayed-after d s ((polls, a) ∷ xs) k h (from, all) =
    let h' = poll_all-latency_until d s polls k h in
    rw
      (
        is_delayed-after (poll_all d polls s) a (omega arith),
        delayed-after d (poll_all d polls s) xs k h' all,
      )
      refl

-- The window that the scheduler knows is over by `from`, or its latency reaches the time limit.
abbrev Reaches : (timeout_ms from : ℕ) → Scheduler → Type 0
Reaches timeout_ms from s = (s.latency_until ≤ from) ⊎ (timeout_ms ≤ s.injected_latency_ms)

resume-injected_latency_ms :
    (now : ℕ) (s : Scheduler) → (resume now s).injected_latency_ms ≡ s.injected_latency_ms
unfolding resume
resume-injected_latency_ms now s = elim (Bool-cases (s.workers_paused && leb s.paused_until now)) [
  | inl t ↦ rw t refl
  | inr f ↦ rw f refl
]

resume-Reaches :
    (timeout_ms from now : ℕ) (s : Scheduler)
    → Reaches timeout_ms from s
    → Reaches timeout_ms from (resume now s)
resume-Reaches timeout_ms from now s (inl h) = inl (omega (arith, h, resume-latency_until now s))
resume-Reaches timeout_ms from now s (inr h) =
    inr (omega (arith, h, resume-injected_latency_ms now s))

poll_chaos-Reaches :
    (timeout_ms from now : ℕ) (d : ChaosDirective) (s : Scheduler)
    → d.action ≡ inject_latency
    → timeout_ms ≤ get_or d.latency_ms 0
    → Reaches timeout_ms from s
    → Reaches timeout_ms from (poll_chaos now (some d) s)
unfolding poll_chaos follow apply
poll_chaos-Reaches timeout_ms from now d s k long h =
    let same = resume-Reaches timeout_ms from now s h in
    elim (Bool-cases (leb d.until now)) [
      | inl t ↦ rw t same
      | inr f ↦ elim (Bool-cases (eqb d.issued_at (resume now s).last_chaos_issued_at)) [
        | inl u ↦ rw (f, u, k) (inr long)
        | inr u ↦ rw (f, u, k) (inr long)
      ]
    ]

poll_all-Reaches :
    (timeout_ms from : ℕ) (d : ChaosDirective) (s : Scheduler) (ns : List ℕ)
    → d.action ≡ inject_latency
    → timeout_ms ≤ get_or d.latency_ms 0
    → Reaches timeout_ms from s
    → Reaches timeout_ms from (poll_all d ns s)
unfolding poll_all
poll_all-Reaches timeout_ms from d s [] k long h = h
poll_all-Reaches timeout_ms from d s (n ∷ ns) k long h =
    poll_all-Reaches timeout_ms from d (poll_chaos n (some d) s) ns k long
      (poll_chaos-Reaches timeout_ms from n d s k long h)

-- A delayed attempt lasts until the time limit.
ended-delayed :
    (timeout_ms from : ℕ) (s : Scheduler) (a : Attempt)
    → from ≤ a.now
    → Reaches timeout_ms from s
    → is_delayed s a ≡ true
    → ended timeout_ms s a ≡ a.now + timeout_ms
unfolding delay
ended-delayed timeout_ms from s a first (inl over) t =
    absurd (cc (is_delayed-after s a (omega (arith, first, over)), t))
ended-delayed timeout_ms from s a first (inr long) t = ground (arith, long, t)

delayed_once :
    (timeout_ms from : ℕ) (d : ChaosDirective) (s : Scheduler) (xs : List (List ℕ × Attempt))
    → d.action ≡ inject_latency
    → timeout_ms ≤ get_or d.latency_ms 0
    → s.latency_until ≤ d.until
    → Reaches timeout_ms from s
    → d.until ≤ from + timeout_ms
    → AllFrom from xs
    → IsSequential timeout_ms d s xs
    → delayed d s xs ≤ 1
delayed_once timeout_ms from d s [] k long h reaches e all sequential = omega arith
delayed_once timeout_ms from d s ((polls, a) ∷ xs) k long h reaches e (first, all)
      (next, sequential) =
    let s' = poll_all d polls s in
    let h' = poll_all-latency_until d s polls k h in
    let reaches' = poll_all-Reaches timeout_ms from d s polls k long reaches in
    elim (Bool-cases (is_delayed s' a)) [
      | inl t ↦
          let late : d.until ≤ ended timeout_ms s' a =
            omega (arith, first, e, ended-delayed timeout_ms from s' a first reaches' t) in
          rw
            (
              t,
              delayed-after d s' xs k h' (AllFrom-le d.until (ended timeout_ms s' a) xs late next),
            )
            (omega arith)
      | inr f ↦
          rw f (
            omega (arith, delayed_once timeout_ms from d s' xs k long h' reaches' e all sequential))
    ]

-- Let an injectLatency window be no longer than the time limit, as the default one of 15 s is with the
-- default limit of 30 s, its latency at least the limit, and no window before it reach beyond the
-- trigger; and let the worker poll no other directive. Of the attempts of a job that start after the
-- trigger, each when the one before is over, the window delays at most one.
pub latency_window-once :
    (timeout_ms issued : ℕ) (duration latency : Option ℕ) (s : Scheduler)
    (xs : List (List ℕ × Attempt))
    → get_or duration default_duration_ms ≤ timeout_ms
    → timeout_ms ≤ get_or latency default_latency_ms
    → s.latency_until ≤ issued
    → AllFrom issued xs
    → IsSequential timeout_ms (trigger issued inject_latency duration latency).0 s xs
    → delayed (trigger issued inject_latency duration latency).0 s xs ≤ 1
unfolding trigger
latency_window-once timeout_ms issued duration latency s xs short long over all sequential =
    delayed_once timeout_ms issued (trigger issued inject_latency duration latency).0 s xs refl long
      (omega arith) (inl over) (omega arith) all sequential
