-- ===== src/Client/Feed.antt =====
-- apps/web/src/lib/useQueueStream.ts.
use Prim.Native.String
use ai_task_orchestrator.Base.{
  ℕ, ◌≤◌, ◌≡◌, refl, sym, ap, ◌∙◌, subst, String, Bool, List, [], ◌∷◌, ◌++◌, map, arith, Option,
  none, some, includes, Bool-cases, if◌then◌else◌, inl, inr, length, ltb, IsDistinct, latest,
  push_latest, length-latest, push_latest_lem, push_latest-latest, latest-latest, map-latest,
  length-map, latest-IsDistinct, snoc-IsDistinct,
}
use ai_task_orchestrator.Stream.{Stage, TaskFlowEvent}

pub data StreamStatus : Type 0 where
  connecting open_ closed error : StreamStatus

abbrev pub flow_buffer_max : ℕ
flow_buffer_max = 80

abbrev pub stage_name : Stage → String
stage_name Stage.waiting = "waiting"
stage_name Stage.active = "active"
stage_name Stage.completed = "completed"
stage_name Stage.failed = "failed"
stage_name Stage.dlq = "dlq"

-- `${data.jobId}:${data.stage}:${data.ts}`
abbrev pub event_key : TaskFlowEvent → String
event_key e =
    String.◌++◌ e.job_id (String.◌++◌ ":" (String.◌++◌ (stage_name e.stage) (String.◌++◌ ":" e.ts)))

-- What an `EventSource` reports. `none` is a text that does not parse; an error says whether the
-- connection is closed for good.
pub data Report (Snapshot : Type 0) : Type 0 where
  opened : Report Snapshot
  snapshot : Option Snapshot → Report Snapshot
  flow : Option TaskFlowEvent → Report Snapshot
  error : (for_good : Bool) → Report Snapshot
  unmounted : Report Snapshot

-- The state of the hook; the set that `seenRef` holds is its list, oldest first.
pub record FeedState (Snapshot : Type 0) : Type 0 where
  pub snapshot : Option Snapshot
  pub flow_events : List TaskFlowEvent
  pub status : StreamStatus
  pub seen : List String

-- `if (seen.size > 500) seen = new Set(Array.from(seen).slice(-200))`
abbrev pub trim : List String → List String
trim seen = if ltb 500 (length seen) then latest 200 seen else seen

trim-IsDistinct : (seen : List String) → IsDistinct seen → IsDistinct (trim seen)
trim-IsDistinct seen h = elim (Bool-cases (ltb 500 (length seen))) [
  | inl t ↦ rw t (latest-IsDistinct 200 seen h)
  | inr f ↦ rw f h
]

latest-trim :
    (seen : List String) → latest flow_buffer_max (trim seen) ≡ latest flow_buffer_max seen
latest-trim seen = elim (Bool-cases (ltb 500 (length seen))) [
  | inl t ↦ rw t (latest-latest 80 200 seen (omega arith))
  | inr f ↦ rw f refl
]

length-trim : (seen : List String) → length (trim seen) ≤ 500
length-trim seen = elim (Bool-cases (ltb 500 (length seen))) [
  | inl t ↦ rw t (omega (arith, length-latest 200 seen))
  | inr f ↦ rw f (ground (arith, f))
]

map-snoc :
    (es : List TaskFlowEvent) (e : TaskFlowEvent)
    → map event_key (es ++ e ∷ []) ≡ map event_key es ++ event_key e ∷ []
map-snoc [] e = refl
map-snoc (d ∷ es) e = ap (λ l. event_key d ∷ l) (map-snoc es e)

keys-push_latest :
    (events : List TaskFlowEvent) (e : TaskFlowEvent) (seen : List String)
    → map event_key events ≡ latest flow_buffer_max seen
    → map event_key (push_latest flow_buffer_max events e)
      ≡ latest flow_buffer_max (seen ++ event_key e ∷ [])
keys-push_latest events e seen h =
    ap (map event_key) (push_latest_lem flow_buffer_max events e)
    ∙ map-latest event_key flow_buffer_max (events ++ e ∷ [])
    ∙ ap (latest flow_buffer_max) (map-snoc events e ∙ ap (λ l. l ++ event_key e ∷ []) h)
    ∙ sym (push_latest_lem flow_buffer_max (latest flow_buffer_max seen) (event_key e))
    ∙ push_latest-latest flow_buffer_max seen (event_key e)

module _ {Snapshot : Type 0} where
  abbrev pub mounted : FeedState Snapshot
  mounted = record {
    snapshot = none;
    flow_events = [];
    status = StreamStatus.connecting;
    seen = [];
  }

  -- The listener for `flow`.
  unfoldable pub on_flow : FeedState Snapshot → TaskFlowEvent → FeedState Snapshot
  on_flow s e = if includes (event_key e) s.seen then s else record s {
    seen = trim (s.seen ++ event_key e ∷ []);
    flow_events = push_latest flow_buffer_max s.flow_events e;
  }

  unfoldable pub handle : FeedState Snapshot → Report Snapshot → FeedState Snapshot
  unfolding on_flow
  handle s opened = record s { status = StreamStatus.open_ }
  handle s (snapshot none) = s
  handle s (snapshot (some now)) = record s { snapshot = some now }
  handle s (flow none) = s
  handle s (flow (some e)) = on_flow s e
  handle s (error for_good) = record s {
    status = if for_good then StreamStatus.closed else StreamStatus.error;
  }
  handle s unmounted = record s { status = StreamStatus.closed }

  unfoldable pub handle_all : FeedState Snapshot → List (Report Snapshot) → FeedState Snapshot
  unfolding handle
  handle_all s [] = s
  handle_all s (report ∷ reports) = handle_all (handle s report) reports

  -- The keys that are shown are the latest of those remembered, which are few and distinct.
  record IsFeed (s : FeedState Snapshot) : Type 0 where
    keys_shown : map event_key s.flow_events ≡ latest flow_buffer_max s.seen
    few : length s.seen ≤ 500
    distinct : IsDistinct s.seen

  on_flow-IsFeed : (s : FeedState Snapshot) (e : TaskFlowEvent) → IsFeed s → IsFeed (on_flow s e)
  unfolding on_flow
  on_flow-IsFeed s e i = elim (Bool-cases (includes (event_key e) s.seen)) [
    | inl t ↦ rw t i
    | inr f ↦ rw f record {
      keys_shown =
          keys-push_latest s.flow_events e s.seen i.keys_shown
          ∙ sym (latest-trim (s.seen ++ event_key e ∷ []));
      few = length-trim (s.seen ++ event_key e ∷ []);
      distinct =
          trim-IsDistinct (s.seen ++ event_key e ∷ [])
            (snoc-IsDistinct s.seen (event_key e) i.distinct f);
    }
  ]

  moved :
      (s t : FeedState Snapshot)
      → IsFeed s
      → s.flow_events ≡ t.flow_events
      → s.seen ≡ t.seen
      → IsFeed t
  moved s t i e f = record {
    keys_shown = ap (map event_key) (sym e) ∙ i.keys_shown ∙ ap (latest flow_buffer_max) f;
    few = subst (λ l. length l ≤ 500) f i.few;
    distinct = subst IsDistinct f i.distinct;
  }

  handle-IsFeed : (s : FeedState Snapshot) (m : Report Snapshot) → IsFeed s → IsFeed (handle s m)
  unfolding handle
  handle-IsFeed s opened i = moved s (record s { status = StreamStatus.open_ }) i refl refl
  handle-IsFeed s (snapshot none) i = i
  handle-IsFeed s (snapshot (some now)) i = moved s (record s { snapshot = some now }) i refl refl
  handle-IsFeed s (flow none) i = i
  handle-IsFeed s (flow (some e)) i = on_flow-IsFeed s e i
  handle-IsFeed s (error for_good) i =
      moved s (record s { status = if for_good then StreamStatus.closed else StreamStatus.error }) i
        refl refl
  handle-IsFeed s unmounted i = moved s (record s { status = StreamStatus.closed }) i refl refl

  handle_all-IsFeed :
      (s : FeedState Snapshot) (ms : List (Report Snapshot)) → IsFeed s → IsFeed (handle_all s ms)
  unfolding handle_all
  handle_all-IsFeed s [] i = i
  handle_all-IsFeed s (m ∷ ms) i = handle_all-IsFeed (handle s m) ms (handle-IsFeed s m i)

  -- Whatever the stream reports to a client, repeated and malformed texts included, the events that
  -- it shows have distinct keys, are at most 80, and the set of remembered keys has at most 500.
  pub handle_all-bounded :
      (reports : List (Report Snapshot))
      → IsDistinct (map event_key (handle_all mounted reports).flow_events)
        × (length (handle_all mounted reports).flow_events ≤ flow_buffer_max)
        × (length (handle_all mounted reports).seen ≤ 500)
  handle_all-bounded reports =
      let start : IsFeed mounted = record {
        keys_shown = refl;
        few = omega arith;
        distinct = λ x. omega arith;
      } in
      let i = handle_all-IsFeed mounted reports start in
      let s = handle_all mounted reports in
      (
        subst IsDistinct (sym i.keys_shown) (latest-IsDistinct flow_buffer_max s.seen i.distinct),
        omega (
          arith,
          length-map event_key s.flow_events,
          ap length i.keys_shown,
          length-latest flow_buffer_max s.seen,
        ),
        i.few,
      )
