-- ===== src/Client/ChaosPage.antt =====
-- The state of apps/web/src/pages/Chaos.tsx. Its texts are a kind and what they mention.
use ai_task_orchestrator.Base.{
  ℕ, ◌+◌, ◌-◌, ◌*◌, ◌/◌, ◌≤◌, ◌<◌, ◌≡◌, refl, sym, ap, ◌∙◌, String, false, Option, none, some, ltb,
  if◌then◌else◌, arith, ℤ, difference, get_or, ◌==◌, Bool-cases, inl, inr,
}
use ai_task_orchestrator.Base.Result.{Result, ok, err}
use ai_task_orchestrator.Chaos.{ChaosAction, inject_latency, ChaosDirective, active}
use ai_task_orchestrator.Client.Requests.{
  Reply, body_or_throw, admin_err, Request, trigger_chaos_request,
}

pub record Failures : Type 0 where
  pub failed : ℕ
  pub dlq : ℕ
  pub timeout : ℕ

pub data Notice : Type 0 where
  fired : ChaosAction → Notice
  not_fired : (message : String) → Notice

pub record PageState : Type 0 where
  pub token : String
  pub status : Option (Option ChaosDirective)
  pub status_err : Option String
  pub duration : ℕ
  pub latency : ℕ
  pub busy : Option ChaosAction
  pub notice : Option Notice
  pub baseline : Option Failures
  pub result : Option ChaosDirective

abbrev pub no_failures : Failures
no_failures = record { failed = 0; dlq = 0; timeout = 0 }

abbrev status_read : PageState → Result String (Option ChaosDirective) → PageState
status_read s (ok now) = record s { status = some now; status_err = none }
status_read s (err message) = record s { status = none; status_err = some message }

-- `loadStatus`, with the answer that a request gets.
unfoldable pub load_status : PageState → Reply (Option ChaosDirective) → PageState
unfolding body_or_throw
load_status s reply =
    if s.token == ""
    then record s { status = none; status_err = none }
    else status_read s (body_or_throw admin_err reply)

abbrev sent_latency : ChaosAction → ℕ → Option ℕ
sent_latency inject_latency latency = some latency
sent_latency _ latency = none

-- `fire` up to the request, and the request.
unfoldable pub fire : PageState → (failures : Option Failures) → ChaosAction → PageState × Request
fire s failures action = (
  record s { busy = some action; notice = none; baseline = some (get_or failures no_failures) },
  trigger_chaos_request action s.token (some s.duration) (sent_latency action s.latency),
)

abbrev fire_read :
    PageState
    → ChaosAction
    → Result String ChaosDirective
    → Reply (Option ChaosDirective)
    → PageState
fire_read s action (err message) again = record s { notice = some (not_fired message); busy = none }
fire_read s action (ok d) again =
    load_status (record s { result = some d; notice = some (fired action); busy = none }) again

-- `fire` from the answer on; the status is loaded again after a success.
unfoldable pub fire_answered :
    PageState
    → ChaosAction
    → Reply ChaosDirective
    → (again : Reply (Option ChaosDirective)) → PageState
unfolding load_status body_or_throw
fire_answered s action reply again = fire_read s action (body_or_throw admin_err reply) again

-- `status?.active && status.active.until > now ? status.active : null`
unfoldable pub active_at : (now : ℕ) → Option (Option ChaosDirective) → Option ChaosDirective
active_at now (some (some d)) = if ltb now d.until then some d else none
active_at now _ = none

-- `Math.ceil((active.until - now) / 1000)`
abbrev pub remaining_sec : (now : ℕ) → Option ChaosDirective → ℕ
remaining_sec now none = 0
remaining_sec now (some d) = (d.until - now + 999) / 1000

-- `Metric`: the change since the action.
abbrev pub delta : (value : ℕ) (base : Option ℕ) → Option ℤ
delta value none = none
delta value (some base) = some (difference value base)

abbrev until_or : ℕ → Option ChaosDirective → ℕ
until_or other none = other
until_or other (some d) = d.until

seconds :
    (now end until : ℕ)
    → now < end
    → end ≡ until
    → (0 < (end - now + 999) / 1000)
      × (until ≤ now + 1000 * ((end - now + 999) / 1000))
      × (now + 1000 * ((end - now + 999) / 1000 - 1) < until)
seconds now end until h e = (omega arith, omega arith, omega arith)

-- While the server says that an action is active, its time as the page counts it has not run out, and
-- it is the least number of whole seconds that reaches the end of the action.
-- If the page shows an action as active, the time that it counts has not run out, and it is the least
-- number of whole seconds that reaches the end of the action.
pub remaining_sec-least :
    (now : ℕ) (status : Option (Option ChaosDirective)) (d : ChaosDirective)
    → active_at now status ≡ some d
    → (0 < remaining_sec now (active_at now status))
      × (d.until ≤ now + 1000 * remaining_sec now (active_at now status))
      × (now + 1000 * (remaining_sec now (active_at now status) - 1) < d.until)
unfolding active_at
remaining_sec-least now none d h = cc
remaining_sec-least now (some none) d h = cc
remaining_sec-least now (some (some e)) d h = elim (Bool-cases (ltb now e.until)) [
  | inl t ↦
      let same : some e ≡ some d = sym (rw t refl) ∙ h in
      let later : now < e.until = ground (arith, t) in
      let until : e.until ≡ d.until = ap (until_or 0) same in
      rw t (seconds now e.until d.until later until)
  | inr f ↦ absurd (cc (rw f at h))
]

-- An old answer of the API shows the page, at any later time, what the API would answer then.
pub active_at-active :
    (then_ now : ℕ) (d : Option ChaosDirective)
    → then_ ≤ now
    → active_at now (some (active then_ d)) ≡ active now d
unfolding active_at active
active_at-active then_ now none h = refl
active_at-active then_ now (some d) h = elim (Bool-cases (ltb then_ d.until)) [
  | inl t ↦ rw t refl
  | inr f ↦ rw (f, passed f) refl
]
  where
    passed : ltb then_ d.until ≡ false → ltb now d.until ≡ false
    passed f = ground (arith, h, f)
