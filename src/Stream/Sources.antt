-- ===== src/Stream/Sources.antt =====
-- apps/api/src/stream/stream.service.ts: the queues that are found, the events that they report and
-- the snapshot of their jobs.

use Prim.Native.Char.{Char, code}
use ai_task_orchestrator.Base.{
  ℕ, String, Bool, List, [], ◌∷◌, ◌++◌, map, Option, none, some, get_or, includes, eqb,
  if◌then◌else◌, ◌==◌, ◌||◌,
}
use ai_task_orchestrator.Base.Sorting.{sort}
use ai_task_orchestrator.Queue.{task_queue_prefix, task_dlq}
use ai_task_orchestrator.Stream.{Stage, TaskFlowEvent, record_event}

-- What follows a prefix.
unfoldable pub strip : (prefix text : String) → Option String
strip String.[] text = some text
strip (String.◌∷◌ c prefix) String.[] = none
strip (String.◌∷◌ c prefix) (String.◌∷◌ d text) =
    let rest = strip prefix text in if eqb (code c) (code d) then rest else none

-- The characters that `.` of a regular expression does not match.
abbrev is_line_end : ℕ → Bool
is_line_end c = eqb c 10 || eqb c 13 || eqb c 8232 || eqb c 8233

abbrev prepend : Char → Option String → Option String
prepend c none = none
prepend c (some s) = some (String.◌∷◌ c s)

-- What stands before `:meta`, on one line.
unfoldable pub before_meta : String → Option String
before_meta String.[] = none
before_meta (String.◌∷◌ c text) =
    let rest = before_meta text in
    if String.◌∷◌ c text == ":meta"
    then some ""
    else if is_line_end (code c)
    then none
    else prepend c rest

abbrev unless_empty : Option String → Option String
unless_empty none = none
unless_empty (some s) = if s == "" then none else some s

abbrev name_in : Option String → Option String
name_in none = none
name_in (some s) = unless_empty (before_meta s)

-- `key.match(/^bull:(.+):meta$/)?.[1]`
unfoldable pub queue_name : String → Option String
unfolding strip before_meta
queue_name key = name_in (strip "bull:" key)

-- `queueName.replace(TASK_QUEUE_PREFIX, '')`: the first occurrence goes.
unfoldable pub replace_prefix : String → String
unfolding strip
replace_prefix String.[] = String.[]
replace_prefix (String.◌∷◌ c text) =
    let rest = String.◌∷◌ c (replace_prefix text) in
    get_or (strip task_queue_prefix (String.◌∷◌ c text)) rest

-- `.map((k) => …).filter((n) => !!n)`
unfoldable pub queue_names : List String → List String
unfolding queue_name
queue_names [] = []
queue_names (key ∷ keys) = elim (queue_name key) [
  | none ↦ queue_names keys
  | some name ↦ name ∷ queue_names keys
]

-- The subscriptions by the names of their queues, and the ring.
pub record Sources : Type 0 where
  pub subscribed : List String
  pub ring : List TaskFlowEvent

abbrev pub subscribe : Option String → List String → List String
subscribe none subscribed = subscribed
subscribe (some name) subscribed =
    if includes name subscribed then subscribed else subscribed ++ name ∷ []

abbrev pub subscribe_all : List String → List String → List String
subscribe_all [] subscribed = subscribed
subscribe_all (key ∷ keys) subscribed = subscribe_all keys (subscribe (queue_name key) subscribed)

-- `discoverEventSources` on the keys that Redis finds.
unfoldable pub discover_event_sources : List String → Sources → Sources
unfolding queue_name
discover_event_sources keys s = record s { subscribed = subscribe_all keys s.subscribed }

abbrev pub event_of : (ts queue job_id : String) → Stage → TaskFlowEvent
event_of ts queue job_id stage = record {
  ts = ts;
  job_id = job_id;
  queue_name = queue;
  user_id = replace_prefix queue;
  stage = stage;
}

-- An event of a queue: the listener of each subscription to that queue records it.
unfoldable pub on_queue_event :
    List String → TaskFlowEvent → List TaskFlowEvent → List TaskFlowEvent
on_queue_event [] e ring = ring
on_queue_event (name ∷ names) e ring =
    on_queue_event names e (if name == e.queue_name then record_event ring e else ring)

-- A job that arrives in the queue of dead letters.
unfoldable pub on_dlq_added : (ts job_id : String) → Sources → Sources
on_dlq_added ts job_id s =
    let e : TaskFlowEvent = record {
      ts = ts;
      job_id = job_id;
      queue_name = task_dlq;
      user_id = "_dlq";
      stage = Stage.dlq;
    } in
    record s { ring = record_event s.ring e }

-- What BullMQ counts of a queue; a state may be missing.
pub record JobCounts : Type 0 where
  pub waiting : Option ℕ
  pub active : Option ℕ
  pub completed : Option ℕ
  pub failed : Option ℕ
  pub delayed : Option ℕ

pub record QueueSnapshotEntry : Type 0 where
  pub queue_name : String
  pub user_id : String
  pub waiting : ℕ
  pub active : ℕ
  pub completed : ℕ
  pub failed : ℕ
  pub delayed : ℕ

pub record QueueSnapshot : Type 0 where
  pub ts : String
  pub queues : List QueueSnapshotEntry
  pub dlq_waiting : ℕ
  pub dlq_failed : ℕ

abbrev pub entry_of : (counts : String → JobCounts) → String → QueueSnapshotEntry
entry_of counts name = record {
  queue_name = name;
  user_id = replace_prefix name;
  waiting = get_or (counts name).waiting 0;
  active = get_or (counts name).active 0;
  completed = get_or (counts name).completed 0;
  failed = get_or (counts name).failed 0;
  delayed = get_or (counts name).delayed 0;
}

-- `getQueue`, over the names of the queues that are open.
unfoldable pub get_queue : String → List String → List String
get_queue name open_queues =
    if includes name open_queues then open_queues else open_queues ++ name ∷ []

unfoldable pub get_queues : List String → List String → List String
unfolding get_queue
get_queues [] open_queues = open_queues
get_queues (name ∷ names) open_queues = get_queues names (get_queue name open_queues)

-- `before a b` is `a.localeCompare(b) <= 0`. Beside the snapshot stand the queues that are open then.
unfoldable pub snapshot :
    (before : String → String → Bool) (counts : String → JobCounts) (ts : String)
    (keys open_queues : List String)
    → QueueSnapshot × List String
unfolding queue_names get_queues
snapshot before counts ts keys open_queues = (
  record {
    ts = ts;
    queues =
        sort (λ (a b : QueueSnapshotEntry). before a.user_id b.user_id)
          (map (entry_of counts) (queue_names keys));
    dlq_waiting = get_or (counts task_dlq).waiting 0;
    dlq_failed = get_or (counts task_dlq).failed 0;
  },
  get_queues (queue_names keys) open_queues,
)
