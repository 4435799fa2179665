-- ===== src/Stream.antt =====
-- apps/api/src/stream/stream.service.ts (the ring buffer) and stream.controller.ts (`tick`).
pub mod Ring
pub mod Cursor
pub mod Sources
pub mod Delivery
mod Examples
mod Readings
use ai_task_orchestrator.Base.{
  ℕ, ◌+◌, String, Bool, true, false, List, [], ◌∷◌, ◌++◌, map, if◌then◌else◌, length, drop, ltb,
}

pub data Stage : Type 0 where
  waiting active completed failed dlq : Stage

pub record TaskFlowEvent : Type 0 where
  pub ts : String
  pub job_id : String
  pub queue_name : String
  pub user_id : String
  pub stage : Stage

abbrev pub ring_size : ℕ
ring_size = 50

-- `ringBuffer.shift()`
abbrev pub shift : List TaskFlowEvent → List TaskFlowEvent
shift [] = []
shift (_ ∷ es) = es

unfoldable pub record_event : List TaskFlowEvent → TaskFlowEvent → List TaskFlowEvent
record_event ring e =
    let pushed = ring ++ e ∷ [] in if ltb ring_size (length pushed) then shift pushed else pushed

unfoldable pub record_events : List TaskFlowEvent → List TaskFlowEvent → List TaskFlowEvent
unfolding record_event
record_events ring [] = ring
record_events ring (e ∷ es) = record_events (record_event ring e) es

-- What one client is sent, over a snapshot `Snapshot`.
pub data Message (Snapshot : Type 0) : Type 0 where
  snapshot : Snapshot → Message Snapshot
  flow : TaskFlowEvent → Message Snapshot

-- One `tick` of a client whose cursor is `cursor`, once the snapshot has been taken: the new cursor
-- and what is sent.
unfoldable pub tick :
    {Snapshot : Type 0}
    → Snapshot
    → (events : List TaskFlowEvent) → (cursor : ℕ) → ℕ × List (Message Snapshot)
tick now events cursor =
    if ltb cursor (length events)
    then (length events, snapshot now ∷ map flow (drop cursor events))
    else if ltb (length events) cursor
    then (length events, snapshot now ∷ map flow events)
    else (cursor, snapshot now ∷ [])
