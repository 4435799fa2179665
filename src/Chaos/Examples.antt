-- ===== src/Chaos/Examples.antt =====
-- Instances of the theorems on the killWorker window.
use ai_task_orchestrator.Base.{
  ℕ, ◌≡◌, refl, true, false, includes, List, [], ◌∷◌, none, some, arith,
}
use ai_task_orchestrator.Chaos.{
  ChaosDirective, kill_worker, pause_redis, Scheduler, Process, Event, resuming, following,
  scan_starts, scan_ends, queues_of,
}
use ai_task_orchestrator.Chaos.Windows.{happen_all, kill_window, kill_window-scan}

abbrev kill : ChaosDirective
kill = record { action = kill_worker; issued_at = 1000; until = 16000; latency_ms = none }

abbrev running : Scheduler
running = record {
  workers = record { queue = "tasks-user-alice"; paused = false } ∷ [];
  last_chaos_issued_at = 0;
  injected_latency_ms = 0;
  latency_until = 0;
  workers_suppressed_until = 0;
  paused_until = 0;
  workers_paused = false;
}

abbrev process : ℕ → Process
process scans = record { scheduler = running; scans = scans }

-- The API has written another directive by the second poll.
abbrev pause : ChaosDirective
pause = record { action = pause_redis; issued_at = 2500; until = 9000; latency_ms = none }

abbrev events : List Event
events =
    scan_starts 2000
    ∷ resuming 3000
    ∷ scan_ends ("tasks-user-alice" ∷ [])
    ∷ following 3000 (some pause)
    ∷ scan_starts 12000
    ∷ []

kill_example : (happen_all (following 1500 (some kill) ∷ events) (process 0)).scheduler.workers ≡ []
kill_example =
    kill_window kill (process 0) 1500 events refl (λ e. omega (arith, e)) (omega arith) refl
      (omega arith, (tt, (tt, (λ e. absurd (cc), (omega arith, tt)))))

scan_example :
    ((happen_all (following 1500 (some kill) ∷ []) (process 1)).scheduler.workers ≡ [])
    × (includes "tasks-user-bob" ("tasks-user-bob" ∷ []) ≡ true
        → includes "tasks-user-bob" (
            queues_of
              (happen_all
                (following 1500 (some kill) ∷ scan_ends ("tasks-user-bob" ∷ []) ∷ [])
                (process 1)).scheduler.workers)
          ≡ true)
scan_example =
    kill_window-scan kill (process 1) 1500 0 ("tasks-user-bob" ∷ []) "tasks-user-bob" refl
      (λ e. omega (arith, e)) (omega arith) refl
