-- ===== src/Client/Costs.antt =====
-- apps/web/src/lib/useCostSummary.ts. Amounts of dollars are the numbers that the page is sent, taken
-- as opaque.
use ai_task_orchestrator.Base.{
  ℕ, ◌≡◌, refl, sym, ap, ◌∙◌, String, Bool, List, [], ◌∷◌, ◌++◌, Option, none, some, get_or,
  if◌then◌else◌, latest, push_latest, push_latest-latest,
}
use mathlib.Core.List.{append_assoc, append-nil}
use ai_task_orchestrator.Base.Result.{Result, ok, err}
use ai_task_orchestrator.Client.Requests.{
  Reply, succeeded, refused, unreachable, body_or_throw, http,
}

-- What the hook reads of a summary: `available` and `fault` are those of `raw`.
pub record CostSummary (Usd : Type 0) : Type 0 where
  pub ts : String
  pub total_cost_usd : Usd
  pub available : Bool
  pub fault : Option String

pub record CostTrendPoint (Usd : Type 0) : Type 0 where
  pub ts : String
  pub cost_usd : Usd

abbrev pub trend_limit : ℕ
trend_limit = 60

pub record CostState (Usd : Type 0) : Type 0 where
  pub summary : Option (CostSummary Usd)
  pub trend : List (CostTrendPoint Usd)
  pub error : Option String

module _ {Usd : Type 0} where
  abbrev pub no_costs : CostState Usd
  no_costs = record { summary = none; trend = []; error = none }

  abbrev pub point : CostSummary Usd → CostTrendPoint Usd
  point summary = record { ts = summary.ts; cost_usd = summary.total_cost_usd }

  abbrev pub settled : CostState Usd → Result String (CostSummary Usd) → CostState Usd
  settled s (err message) = record s { error = some message }
  settled s (ok now) = record {
    summary = some now;
    error = if now.available then none else some (get_or now.fault "unavailable");
    trend = push_latest trend_limit s.trend (point now);
  }

  -- One `tick` while the page is there; each schedules the next one.
  unfoldable pub cost_tick : CostState Usd → Reply (CostSummary Usd) → CostState Usd
  unfolding body_or_throw
  cost_tick s reply = settled s (body_or_throw (λ status e. http status) reply)

  unfoldable pub cost_ticks : CostState Usd → List (Reply (CostSummary Usd)) → CostState Usd
  unfolding cost_tick
  cost_ticks s [] = s
  cost_ticks s (reply ∷ replies) = cost_ticks (cost_tick s reply) replies

  -- The points of the answers that carry a summary.
  abbrev pub points : List (Reply (CostSummary Usd)) → List (CostTrendPoint Usd)
  points [] = []
  points (succeeded (ok now) ∷ replies) = point now ∷ points replies
  points (_ ∷ replies) = points replies

  trend-from :
      (s : CostState Usd) (replies : List (Reply (CostSummary Usd)))
      (shown : List (CostTrendPoint Usd))
      → s.trend ≡ latest trend_limit shown
      → (cost_ticks s replies).trend ≡ latest trend_limit (shown ++ points replies)
  unfolding cost_ticks cost_tick body_or_throw
  trend-from s [] shown h = h ∙ ap (latest trend_limit) (sym (append-nil shown))
  trend-from s (succeeded (ok now) ∷ replies) shown h =
      trend-from (settled s (ok now)) replies (shown ++ point now ∷ []) (
        ap (λ l. push_latest trend_limit l (point now)) h
        ∙ push_latest-latest trend_limit shown (point now))
      ∙ ap (latest trend_limit) (append_assoc shown (point now ∷ []) (points replies))
  trend-from s (succeeded (err e) ∷ replies) shown h =
      trend-from (settled s (err e)) replies shown h
  trend-from s (refused status e ∷ replies) shown h =
      trend-from (settled s (err (http status))) replies shown h
  trend-from s (unreachable m ∷ replies) shown h = trend-from (settled s (err m)) replies shown h

  -- After any answers, failed ones among them, the trend holds the points of the summaries that were
  -- read, in their order, and of more than 60 the latest 60.
  pub cost_ticks-trend :
      (replies : List (Reply (CostSummary Usd)))
      → (cost_ticks no_costs replies).trend ≡ latest trend_limit (points replies)
  cost_ticks-trend replies = trend-from no_costs replies [] refl
