-- ===== src/Chaos/Windows.antt =====
-- The time window of killWorker.
use ai_task_orchestrator.Base.{
  ℕ, suc, ◌≤◌, ◌<◌, ◌≡◌, ◌≢◌, refl, ap, String, true, false, List, [], ◌∷◌, ◌++◌, none, some, ltb,
  leb, eqb, ◌&&◌, ◌||◌, not, if◌then◌else◌, includes, arith, Bool-cases, inl, inr, eq_iff, subst,
  ◌==◌,
}
use ai_task_orchestrator.Chaos.{
  ChaosAction, kill_worker, pause_redis, inject_latency, ChaosDirective, Scheduler, resume, follow,
  apply, set_paused, Worker, queues_of, create_workers, Process, start_scan, finish_scan, Event,
  resuming, following, scan_starts, scan_ends, happen, is_latency,
}

unfoldable pub happen_all : List Event → Process → Process
unfolding happen
happen_all [] p = p
happen_all (e ∷ es) p = happen_all es (happen e p)

-- No scan starts later, and no other killWorker directive that is polled ends earlier.
abbrev pub IsWithin : (until : ℕ) → Event → Type 0
IsWithin until (resuming now) = Unit {0}
IsWithin until (following now none) = Unit {0}
IsWithin until (following now (some e)) = e.action ≡ kill_worker → until ≤ e.until
IsWithin until (scan_starts now) = now < until
IsWithin until (scan_ends names) = Unit {0}

abbrev pub AllWithin : (until : ℕ) → List Event → Type 0
AllWithin until [] = Unit {0}
AllWithin until (e ∷ es) = IsWithin until e × AllWithin until es

-- There are no workers, and none is about to be created.
record Suppressed (until : ℕ) (p : Process) : Type 0 where
  none_left : p.scheduler.workers ≡ []
  no_scans : p.scans ≡ 0
  window : until ≤ p.scheduler.workers_suppressed_until

resume-Suppressed :
    (until now : ℕ) (p : Process)
    → Suppressed until p
    → Suppressed until (record p { scheduler = resume now p.scheduler })
unfolding resume
resume-Suppressed until now p sup =
    elim (Bool-cases (p.scheduler.workers_paused && leb p.scheduler.paused_until now)) [
      | inl t ↦ rw t (record {
        none_left = ap (set_paused false) sup.none_left;
        no_scans = sup.no_scans;
        window = sup.window;
      })
      | inr f ↦ rw f sup
    ]

apply-Suppressed :
    (until : ℕ) (p : Process) (d : ChaosDirective) (action : ChaosAction)
    → d.action ≡ action
    → (d.action ≡ kill_worker → until ≤ d.until)
    → Suppressed until p
    → Suppressed until (record p { scheduler = apply p.scheduler d })
unfolding apply
apply-Suppressed until p d kill_worker k long sup =
    rw k (record { none_left = refl; no_scans = sup.no_scans; window = long k })
apply-Suppressed until p d pause_redis k long sup = rw k (record {
  none_left = ap (set_paused true) sup.none_left;
  no_scans = sup.no_scans;
  window = sup.window;
})
apply-Suppressed until p d inject_latency k long sup =
    rw k (record { none_left = sup.none_left; no_scans = sup.no_scans; window = sup.window })

follow-Suppressed :
    (until now : ℕ) (p : Process) (d : ChaosDirective)
    → (d.action ≡ kill_worker → until ≤ d.until)
    → Suppressed until p
    → Suppressed until (record p { scheduler = follow now (some d) p.scheduler })
unfolding follow
follow-Suppressed until now p d long sup = elim (Bool-cases (leb d.until now)) [
  | inl t ↦ rw t sup
  | inr f ↦
      elim (Bool-cases
        (eqb d.issued_at p.scheduler.last_chaos_issued_at && not (is_latency d.action))) [
          | inl t ↦ rw (f, t) sup
          | inr g ↦ rw (f, g) (apply-Suppressed until p d d.action refl long sup)
        ]
]

happen-Suppressed :
    (until : ℕ) (e : Event) (p : Process)
    → IsWithin until e
    → Suppressed until p
    → Suppressed until (happen e p)
unfolding happen start_scan finish_scan follow
happen-Suppressed until (resuming now) p h sup = resume-Suppressed until now p sup
happen-Suppressed until (following now none) p h sup = sup
happen-Suppressed until (following now (some d)) p h sup = follow-Suppressed until now p d h sup
happen-Suppressed until (scan_starts now) p h sup =
    let closed : ltb now p.scheduler.workers_suppressed_until ≡ true =
      ground (arith, h, sup.window) in
    rw closed sup
happen-Suppressed until (scan_ends names) p h sup = rw (sup.no_scans, finish_scan) sup

happen_all-Suppressed :
    (until : ℕ) (es : List Event) (p : Process)
    → AllWithin until es
    → Suppressed until p
    → Suppressed until (happen_all es p)
unfolding happen_all
happen_all-Suppressed until [] p h sup = sup
happen_all-Suppressed until (e ∷ es) p h sup =
    happen_all-Suppressed until es (happen e p) h.1 (happen-Suppressed until e p h.0 sup)

-- A killWorker directive that the worker has not seen closes all workers in its window.
follow-kill :
    (s : Scheduler) (d : ChaosDirective) (now : ℕ)
    → d.action ≡ kill_worker
    → d.issued_at ≢ s.last_chaos_issued_at
    → now < d.until
    → follow now (some d) s ≡ apply s d
unfolding follow
follow-kill s d now k new h =
    let in_window : leb d.until now ≡ false = ground arith in
    let fresh : eqb d.issued_at s.last_chaos_issued_at ≡ false =
      elim (Bool-cases (eqb d.issued_at s.last_chaos_issued_at)) [
        | inl t ↦ absurd (new (ground (arith, t)))
        | inr f ↦ f
      ] in
    rw (in_window, fresh) refl

killed :
    (d : ChaosDirective) (p : Process)
    → d.action ≡ kill_worker
    → p.scans ≡ 0
    → Suppressed d.until (record p { scheduler = apply p.scheduler d })
unfolding apply
killed d p k idle = rw k (record { none_left = refl; no_scans = idle; window = omega arith })

-- Let the worker first see a killWorker directive while no scan for queues waits for its answer. It
-- closes all of its workers; and whatever polls and scans interleave then, there is no worker as long
-- as no scan starts at the end of the directive or later, and no other killWorker directive is polled
-- that ends earlier.
pub kill_window :
    (d : ChaosDirective) (p : Process) (now : ℕ) (es : List Event)
    → d.action ≡ kill_worker
    → d.issued_at ≢ p.scheduler.last_chaos_issued_at
    → now < d.until
    → p.scans ≡ 0
    → AllWithin d.until es
    → (happen_all (following now (some d) ∷ es) p).scheduler.workers ≡ []
unfolding happen_all happen
kill_window d p now es k new h idle within =
    (happen_all-Suppressed d.until es (record p { scheduler = follow now (some d) p.scheduler })
      within (rw (follow-kill p.scheduler d now k new h) (killed d p k idle))).none_left

queues_of-snoc :
    (x name : String) (ws : List Worker)
    → includes x (queues_of (ws ++ record { queue = name; paused = false } ∷ []))
      ≡ (includes x (queues_of ws) || name == x)
queues_of-snoc x name [] = ground arith
queues_of-snoc x name (w ∷ ws) = ground (arith, queues_of-snoc x name ws)

create_workers-keeps :
    (x : String) (names : List String) (ws : List Worker)
    → includes x (queues_of ws) ≡ true
    → includes x (queues_of (create_workers names ws)) ≡ true
unfolding create_workers
create_workers-keeps x [] ws h = h
create_workers-keeps x (name ∷ names) ws h = elim (Bool-cases (includes name (queues_of ws))) [
  | inl t ↦ rw t (create_workers-keeps x names ws h)
  | inr f ↦ rw f (create_workers-keeps x names _ (ground (arith, h, queues_of-snoc x name ws)))
]

added :
    (x name : String) (ws : List Worker)
    → name == x ≡ true
    → includes x (
        queues_of (
          if includes name (queues_of ws)
          then ws
          else ws ++ record { queue = name; paused = false } ∷ []))
      ≡ true
added x name ws t = elim (Bool-cases (includes name (queues_of ws))) [
  | inl h ↦ rw h (subst (λ y. includes y (queues_of ws) ≡ true) ((eq_iff name x).0 t) h)
  | inr f ↦ rw f (ground (arith, t, queues_of-snoc x name ws))
]

create_workers-all :
    (x : String) (names : List String) (ws : List Worker)
    → includes x names ≡ true
    → includes x (queues_of (create_workers names ws)) ≡ true
unfolding create_workers
create_workers-all x (name ∷ names) ws h = elim (Bool-cases (name == x)) [
  | inr f ↦ create_workers-all x names _ (rw f at h)
  | inl t ↦ create_workers-keeps x names _ (added x name ws t)
]
create_workers-all x [] ws h = cc

-- Let a scan for queues wait for its answer when the worker first sees a killWorker directive. The
-- directive closes all workers; then the scan does not look at the window again, and creates a worker
-- for each queue that it has found.
pub kill_window-scan :
    (d : ChaosDirective) (p : Process) (now left : ℕ) (names : List String) (x : String)
    → d.action ≡ kill_worker
    → d.issued_at ≢ p.scheduler.last_chaos_issued_at
    → now < d.until
    → p.scans ≡ suc left
    → ((happen_all (following now (some d) ∷ []) p).scheduler.workers ≡ [])
      × (includes x names ≡ true
          → includes x (
              queues_of
                (happen_all (following now (some d) ∷ scan_ends names ∷ []) p).scheduler.workers)
            ≡ true)
unfolding happen_all happen finish_scan apply
kill_window-scan d p now left names x k new h waits =
    rw (follow-kill p.scheduler d now k new h, k, waits)
      (refl, λ member. create_workers-all x names [] member)
