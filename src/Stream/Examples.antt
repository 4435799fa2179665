-- ===== src/Stream/Examples.antt =====
-- Instances of the theorems on the stream.
use ai_task_orchestrator.Base.{ℕ, zero, suc, ◌≡◌, String, List, [], ◌∷◌, arith}
use ai_task_orchestrator.Stream.{TaskFlowEvent, Stage, ring_size, record_events, tick, snapshot}
use ai_task_orchestrator.Stream.Ring.{newest, record_events-newest}
use ai_task_orchestrator.Stream.Cursor.{tick-stalls}

abbrev started : TaskFlowEvent
started = record {
  ts = "2026-04-18";
  job_id = "job-1";
  queue_name = "tasks-alice";
  user_id = "alice";
  stage = Stage.active;
}

abbrev times : ℕ → List TaskFlowEvent
times zero = []
times (suc n) = started ∷ times n

newest_example : record_events [] (times 60) ≡ newest ring_size (times 60)
newest_example = record_events-newest (times 60)

stalls_example :
    tick {Snapshot = String} "now" (record_events [] (times 60)) ring_size
    ≡ (ring_size, snapshot "now" ∷ [])
stalls_example = tick-stalls "now" (times 60) (omega arith)
