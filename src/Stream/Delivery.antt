-- ===== src/Stream/Delivery.antt =====
-- Each event of a queue is recorded once, and a snapshot shows each queue that was found.
use ai_task_orchestrator.Base.{
  ◌≡◌, refl, ap, ◌∙◌, String, Bool, true, false, List, [], ◌∷◌, ◌++◌, map, Option, none, some,
  arith, count, includes, includes-append, ◌||◌, eq_iff, eq_cases, Bool-cases, Option-cases,
  if◌then◌else◌, inl, inr, IsDistinct, snoc-IsDistinct,
}
use ai_task_orchestrator.Base.Sorting.{IsSorted, sort-IsSorted, tally, tally-sort}
use ai_task_orchestrator.Stream.{TaskFlowEvent, record_event}
use ai_task_orchestrator.Stream.Sources.{
  queue_name, queue_names, Sources, subscribe, subscribe_all, discover_event_sources,
  on_queue_event, JobCounts, QueueSnapshotEntry, entry_of, snapshot,
}

abbrev pub no_sources : Sources
no_sources = record { subscribed = []; ring = [] }

unfoldable pub discover_all : List (List String) → Sources → Sources
unfolding discover_event_sources
discover_all [] s = s
discover_all (keys ∷ rounds) s = discover_all rounds (discover_event_sources keys s)

-- Some round has found the queue.
abbrev pub is_found : String → List (List String) → Bool
is_found name [] = false
is_found name (keys ∷ rounds) = includes name (queue_names keys) || is_found name rounds

includes-subscribe_all :
    (name : String) (keys known : List String)
    → includes name (subscribe_all keys known)
      ≡ (includes name known || includes name (queue_names keys))
unfolding queue_names
includes-subscribe_all name [] known = ground arith
includes-subscribe_all name (key ∷ keys) known = elim (Option-cases (queue_name key)) [
  | inl e ↦ rw (e, queue_names) (includes-subscribe_all name keys known)
  | inr (found, e) ↦ elim (Bool-cases (includes found known)) [
    | inl t ↦
        rw (e, queue_names, t)
          (ground (
            arith,
            includes-subscribe_all name keys known,
            eq_iff found name,
            t,
            λ (h : found ≡ name). ap (λ w. includes w known) h,
          ))
    | inr f ↦
        rw (e, queue_names, f)
          (ground (
            arith,
            includes-subscribe_all name keys (known ++ found ∷ []),
            includes-append name known (found ∷ []),
          ))
  ]
]

subscribe-IsDistinct :
    (found : Option String) (known : List String)
    → IsDistinct known
    → IsDistinct (subscribe found known)
subscribe-IsDistinct none known d = d
subscribe-IsDistinct (some name) known d = elim (Bool-cases (includes name known)) [
  | inl t ↦ rw t d
  | inr f ↦ rw f (snoc-IsDistinct known name d f)
]

subscribe_all-IsDistinct :
    (keys known : List String) → IsDistinct known → IsDistinct (subscribe_all keys known)
subscribe_all-IsDistinct [] known d = d
subscribe_all-IsDistinct (key ∷ keys) known d =
    subscribe_all-IsDistinct keys (subscribe (queue_name key) known)
      (subscribe-IsDistinct (queue_name key) known d)

discover_all_lem :
    (rounds : List (List String)) (s : Sources)
    → IsDistinct s.subscribed
    → IsDistinct (discover_all rounds s).subscribed
      × ((name : String)
          → includes name (discover_all rounds s).subscribed
            ≡ (includes name s.subscribed || is_found name rounds))
unfolding discover_all discover_event_sources
discover_all_lem [] s d = (d, λ name. ground arith)
discover_all_lem (keys ∷ rounds) s d =
    let (e, f) =
      discover_all_lem rounds (record s { subscribed = subscribe_all keys s.subscribed })
        (subscribe_all-IsDistinct keys s.subscribed d) in
    (e, λ name. ground (arith, f name, includes-subscribe_all name keys s.subscribed))

absent_lem :
    (names : List String) (e : TaskFlowEvent) (ring : List TaskFlowEvent)
    → count e.queue_name names ≡ 0
    → on_queue_event names e ring ≡ ring
unfolding on_queue_event
absent_lem [] e ring h = refl
absent_lem (name ∷ names) e ring h = elim (eq_cases name e.queue_name) [
  | inl (t, _) ↦ absurd (ground (arith, h, t))
  | inr (f, _) ↦ rw f (absent_lem names e ring (ground (arith, h, f)))
]

once_lem :
    (names : List String) (e : TaskFlowEvent) (ring : List TaskFlowEvent)
    → IsDistinct names
    → on_queue_event names e ring
      ≡ (if includes e.queue_name names then record_event ring e else ring)
unfolding on_queue_event
once_lem [] e ring d = refl
once_lem (name ∷ names) e ring d = elim (eq_cases name e.queue_name) [
  | inl (t, _) ↦ rw t (absent_lem names e (record_event ring e) (ground (arith, t, d e.queue_name)))
  | inr (f, _) ↦ rw f (once_lem names e ring (λ v. omega (arith, d v)))
]

-- After any rounds of discovery, in which queues may be found again and again, an event of a queue is
-- recorded exactly once if some round has found its queue, and is not recorded otherwise.
pub discover_all-once :
    (rounds : List (List String)) (e : TaskFlowEvent) (ring : List TaskFlowEvent)
    → on_queue_event (discover_all rounds no_sources).subscribed e ring
      ≡ (if is_found e.queue_name rounds then record_event ring e else ring)
discover_all-once rounds e ring =
    let (d, f) = discover_all_lem rounds no_sources (λ v. omega arith) in
    once_lem (discover_all rounds no_sources).subscribed e ring d
    ∙ ap (λ b. if b then record_event ring e else ring) (f e.queue_name)

-- Over an order of the users that is total and transitive, a snapshot lists the queues by user, and
-- each queue as often as the keys name it, with the numbers that were counted for it.
pub snapshot-lists :
    (before : String → String → Bool) (counts : String → JobCounts) (ts : String)
    (keys open_queues : List String)
    → ((a b : String) → before a b ≡ false → before b a ≡ true)
    → ((a b c : String) → before a b ≡ true → before b c ≡ true → before a c ≡ true)
    → IsSorted
        (λ (a b : QueueSnapshotEntry). before a.user_id b.user_id)
        (snapshot before counts ts keys open_queues).0.queues
      × ((p : QueueSnapshotEntry → Bool)
          → tally p (snapshot before counts ts keys open_queues).0.queues
            ≡ tally p (map (entry_of counts) (queue_names keys)))
unfolding snapshot
snapshot-lists before counts ts keys open_queues total transitive =
    let by_user = λ (a b : QueueSnapshotEntry). before a.user_id b.user_id in
    let entries = map (entry_of counts) (queue_names keys) in
    (
      sort-IsSorted by_user (λ a b. total a.user_id b.user_id)
          (λ a b c. transitive a.user_id b.user_id c.user_id) entries,
      λ p. tally-sort by_user p entries,
    )
