-- ===== src/Stream/Readings.antt =====
-- Queues of two users, found twice.
use ai_task_orchestrator.Base.{◌≡◌, refl, String, List, [], ◌∷◌, if◌then◌else◌}
use ai_task_orchestrator.Stream.{TaskFlowEvent, Stage, record_event}
use ai_task_orchestrator.Stream.Sources.{
  strip, before_meta, queue_name, queue_names, replace_prefix, event_of, on_queue_event,
}
use ai_task_orchestrator.Stream.Delivery.{discover_all, no_sources, is_found, discover_all-once}

abbrev two_keys : List String
two_keys = "bull:tasks-user-bob:meta" ∷ "bull:tasks-user-alice:meta" ∷ []

names_found : queue_names ("bull::meta" ∷ two_keys) ≡ "tasks-user-bob" ∷ "tasks-user-alice" ∷ []
unfolding queue_names queue_name strip before_meta
names_found = refl

user_found : replace_prefix "tasks-user-alice" ≡ "alice"
unfolding replace_prefix strip
user_found = refl

abbrev arrival : TaskFlowEvent
arrival = event_of "2026-04-18" "tasks-user-alice" "1" Stage.waiting

discover_all-once_example :
    on_queue_event (discover_all (two_keys ∷ two_keys ∷ []) no_sources).subscribed arrival [] ≡ (
      if is_found arrival.queue_name (two_keys ∷ two_keys ∷ [])
      then record_event [] arrival
      else [])
discover_all-once_example = discover_all-once (two_keys ∷ two_keys ∷ []) arrival []
