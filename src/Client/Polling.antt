-- ===== src/Client/Polling.antt =====
-- apps/web/src/lib/useDagStatus.ts.
use ai_task_orchestrator.Base.{
  ◌≡◌, refl, String, Bool, true, false, List, [], ◌∷◌, ◌++◌, Option, none, some, ◌&&◌, ◌||◌, not,
  if◌then◌else◌,
}
use ai_task_orchestrator.Base.Result.{Result, ok, err}
use ai_task_orchestrator.Workflow.{NodeStatus, DagMeta}
use ai_task_orchestrator.Workflows.{DagStatusNode}
use ai_task_orchestrator.Client.Requests.{
  Reply, succeeded, refused, unreachable, body_or_throw, failed_request,
}

-- `DagStatus` of lib/api.ts.
pub record DagStatus : Type 0 where
  pub meta : DagMeta
  pub nodes : List DagStatusNode

abbrev runs : NodeStatus → Bool
runs NodeStatus.active = true
runs NodeStatus.ready = true
runs _ = false

abbrev pub some_runs : List DagStatusNode → Bool
some_runs [] = false
some_runs (n ∷ ns) = runs n.status || some_runs ns

abbrev has_nodes : List DagStatusNode → Bool
has_nodes [] = false
has_nodes (n ∷ ns) = true

unfoldable pub is_terminal : DagStatus → Bool
is_terminal d = has_nodes d.nodes && not (some_runs d.nodes)

pub record PollState : Type 0 where
  pub dag : Option DagStatus
  pub error : Option String
  pub polling : Bool

abbrev pub first_poll : PollState
first_poll = record { dag = none; error = none; polling = true }

abbrev read : PollState → Result String DagStatus → PollState
read s (err message) = record s { error = some message }
read s (ok d) = record {
  dag = some d;
  error = none;
  polling = if is_terminal d then false else s.polling;
}

-- One `tick` of a page that is still there.
unfoldable pub poll_tick : PollState → Reply DagStatus → PollState
unfolding is_terminal body_or_throw
poll_tick s reply = read s (body_or_throw (λ status e. failed_request "getDagStatus" status) reply)

-- A tick schedules the next one while the page polls. What the replies are that it still asks for
-- is not read.
unfoldable pub poll : PollState → List (Reply DagStatus) → PollState × List (Reply DagStatus)
unfolding poll_tick
poll s [] = (s, [])
poll s (reply ∷ replies) =
    let t = poll_tick s reply in
    let rest = poll t replies in if t.polling then rest else (t, replies)

-- A reply at which the page does not stop.
abbrev GoesOn : Reply DagStatus → Type 0
GoesOn (succeeded (ok d)) = is_terminal d ≡ false
GoesOn _ = Unit

abbrev pub AllGoOn : List (Reply DagStatus) → Type 0
AllGoOn [] = Unit
AllGoOn (r ∷ rs) = GoesOn r × AllGoOn rs

then_lem : {A : Type 0} (b : Bool) (x y z : A) → b ≡ true → x ≡ z → (if b then x else y) ≡ z
then_lem b x y z h e = rw h e

continued :
    (t : PollState) (replies : List (Reply DagStatus)) (end : PollState × List (Reply DagStatus))
    → t.polling ≡ true
    → poll t replies ≡ end
    → (if t.polling then poll t replies else (t, replies)) ≡ end
continued t replies end = then_lem t.polling (poll t replies) (t, replies) end

-- The page asks again after each reply that is an error or shows a DAG that goes on, and it stops at
-- the first reply whose nodes are neither active nor ready: it then shows that DAG and no error, and
-- it has asked for none of the later replies.
pub poll-stops :
    (s : PollState) (before after : List (Reply DagStatus)) (d : DagStatus)
    → s.polling ≡ true
    → AllGoOn before
    → is_terminal d ≡ true
    → poll s (before ++ succeeded (ok d) ∷ after)
      ≡ (record { dag = some d; error = none; polling = false }, after)
unfolding poll poll_tick body_or_throw
poll-stops s [] after d h go t = rw t refl
poll-stops s (succeeded (ok d') ∷ before) after d h (f, go) t =
    let t' = read s (ok d') in
    let on : t'.polling ≡ true = rw f h in
    continued t' (before ++ succeeded (ok d) ∷ after) _ on (poll-stops t' before after d on go t)
poll-stops s (succeeded (err e) ∷ before) after d h (_, go) t =
    continued (read s (err e)) (before ++ succeeded (ok d) ∷ after) _ h
      (poll-stops (read s (err e)) before after d h go t)
poll-stops s (refused status e ∷ before) after d h (_, go) t =
    let t' = read s (err (failed_request "getDagStatus" status)) in
    continued t' (before ++ succeeded (ok d) ∷ after) _ h (poll-stops t' before after d h go t)
poll-stops s (unreachable m ∷ before) after d h (_, go) t =
    continued (read s (err m)) (before ++ succeeded (ok d) ∷ after) _ h
      (poll-stops (read s (err m)) before after d h go t)
