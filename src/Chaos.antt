-- ===== src/Chaos.antt =====
-- Chaos control: libs/queue/src/chaos.interface.ts, apps/api/src/admin/chaos.service.ts and, in
-- apps/worker/src/fair-scheduler.service.ts, pollChaos and discoverQueues. Times are milliseconds.
pub mod Windows
mod Examples
use ai_task_orchestrator.Base.{
  ℕ, zero, suc, ◌+◌, String, Bool, true, false, List, [], ◌∷◌, ◌++◌, map, Option, none, some,
  get_or, ltb, leb, eqb, includes, if◌then◌else◌, ◌&&◌, not,
}

pub data ChaosAction : Type 0 where
  kill_worker pause_redis inject_latency : ChaosAction

pub record ChaosDirective : Type 0 where
  pub action : ChaosAction
  pub issued_at : ℕ
  pub until : ℕ
  pub latency_ms : Option ℕ

abbrev pub default_duration_ms : ℕ
default_duration_ms = 15000

abbrev pub default_latency_ms : ℕ
default_latency_ms = 35000

-- The latency is of one action only.
abbrev pub latency_of : ChaosAction → Option ℕ → Option ℕ
latency_of inject_latency latency = some (get_or latency default_latency_ms)
latency_of _ latency = none

-- The directive that is written, and its time to live.
unfoldable pub trigger :
    (now : ℕ) → ChaosAction → (duration latency : Option ℕ) → ChaosDirective × ℕ
trigger now action duration latency =
    let ms = get_or duration default_duration_ms in
    (
      record {
        action = action;
        issued_at = now;
        until = now + ms;
        latency_ms = latency_of action latency;
      },
      ms + 2000,
    )

-- `status().active`
unfoldable pub active : (now : ℕ) → Option ChaosDirective → Option ChaosDirective
active now none = none
active now (some d) = if ltb now d.until then some d else none

-- A worker by the name of its queue.
pub record Worker : Type 0 where
  pub queue : String
  pub paused : Bool

-- The fields of FairScheduler.
pub record Scheduler : Type 0 where
  pub workers : List Worker
  pub last_chaos_issued_at : ℕ
  pub injected_latency_ms : ℕ
  pub latency_until : ℕ
  pub workers_suppressed_until : ℕ
  pub paused_until : ℕ
  pub workers_paused : Bool

abbrev pub set_paused : Bool → List Worker → List Worker
set_paused b = map λ (w : Worker). record { queue = w.queue; paused = b }

-- The first step of `pollChaos`: a pauseRedis window that has ended.
unfoldable pub resume : ℕ → Scheduler → Scheduler
resume now s =
    if s.workers_paused && leb s.paused_until now
    then record s { workers = set_paused false s.workers; workers_paused = false }
    else s

abbrev pub is_latency : ChaosAction → Bool
is_latency inject_latency = true
is_latency _ = false

-- A directive in its window that is new, or asks for latency.
unfoldable pub apply : Scheduler → ChaosDirective → Scheduler
apply s d = elim d.action [
  | inject_latency ↦ record s {
    injected_latency_ms = get_or d.latency_ms 0;
    latency_until = d.until;
    last_chaos_issued_at = d.issued_at;
  }
  | kill_worker ↦ record s {
    last_chaos_issued_at = d.issued_at;
    workers_suppressed_until = d.until;
    workers = [];
  }
  | pause_redis ↦ record s {
    last_chaos_issued_at = d.issued_at;
    paused_until = d.until;
    workers_paused = true;
    workers = set_paused true s.workers;
  }
]

-- The rest of `pollChaos`; text that is no JSON counts as no directive.
unfoldable pub follow : ℕ → Option ChaosDirective → Scheduler → Scheduler
unfolding apply
follow now none s = s
follow now (some d) s =
    if leb d.until now
    then s
    else if eqb d.issued_at s.last_chaos_issued_at && not (is_latency d.action)
    then s
    else apply s d

unfoldable pub poll_chaos : ℕ → Option ChaosDirective → Scheduler → Scheduler
unfolding resume follow
poll_chaos now directive s = follow now directive (resume now s)

abbrev pub queues_of : List Worker → List String
queues_of = map (λ w. w.queue)

-- The loop of `discoverQueues` over the names of the queues that were found.
unfoldable pub create_workers : List String → List Worker → List Worker
create_workers [] ws = ws
create_workers (name ∷ names) ws = create_workers names (
    if includes name (queues_of ws) then ws else ws ++ record { queue = name; paused = false } ∷ [])

-- The scheduler, and how many calls of `discoverQueues` wait for the answer of KEYS.
pub record Process : Type 0 where
  pub scheduler : Scheduler
  pub scans : ℕ

-- `discoverQueues` up to its `await`.
unfoldable pub start_scan : ℕ → Process → Process
start_scan now p =
    if ltb now p.scheduler.workers_suppressed_until then p else record p { scans = p.scans + 1 }

-- The rest of one call that waits, with the names of the queues that KEYS has found.
unfoldable pub finish_scan : List String → Process → Process
unfolding create_workers
finish_scan names p = elim p.scans [
  | zero ↦ p
  | suc left ↦ record {
    scheduler = record p.scheduler { workers = create_workers names p.scheduler.workers };
    scans = left;
  }
]

-- What may happen between two `await`s: the first step of `pollChaos`, the rest of it, which keeps the
-- time of its start, and the two parts of `discoverQueues`.
pub data Event : Type 0 where
  resuming : (now : ℕ) → Event
  following : (now : ℕ) → Option ChaosDirective → Event
  scan_starts : (now : ℕ) → Event
  scan_ends : List String → Event

unfoldable pub happen : Event → Process → Process
unfolding resume follow start_scan finish_scan
happen (resuming now) p = record p { scheduler = resume now p.scheduler }
happen (following now directive) p = record p { scheduler = follow now directive p.scheduler }
happen (scan_starts now) p = start_scan now p
happen (scan_ends names) p = finish_scan names p
