-- ===== src/CostSummary/Examples.antt =====
-- Texts of the worker's counters.
use ai_task_orchestrator.Base.{◌≡◌, refl, [], ◌∷◌, ◌++◌, map}
use ai_task_orchestrator.CostSummary.{
  Text, codes, strip, simple_at, first_line, parse_simple_counter, row_at, rows_from, label_in,
}
use ai_task_orchestrator.CostSummary.Report.{ModelCostRow, parse_routed, decimal_le}

abbrev counters : Text
counters =
    codes "# TYPE task_cost_usd_total counter"
    ++ 10 ∷ codes "task_cost_usd_total 0.025"
    ++ 10 ∷ codes "task_routed_total{taskType=\"code\",model=\"m\"} 3"
    ++ 10 ∷ codes "task_routed_total{taskType=\"simple\",model=\"n\"} 12"
    ++ 10 ∷ []

cost_read :
    parse_simple_counter counters (codes "task_cost_usd_total")
    ≡ record { whole = codes "0"; fraction = codes "025" }
unfolding parse_simple_counter first_line simple_at strip
cost_read = refl

-- The smaller of the amounts that JavaScript prints with an exponent is read as five dollars.
exponent_dropped :
    parse_simple_counter (codes "task_cost_usd_total 5e-7") (codes "task_cost_usd_total")
    ≡ record { whole = codes "5"; fraction = [] }
unfolding parse_simple_counter first_line simple_at strip
exponent_dropped = refl

routed_read :
    map (λ (r : ModelCostRow). r.model) (parse_routed counters) ≡ codes "n" ∷ codes "m" ∷ []
unfolding parse_routed rows_from row_at strip label_in decimal_le
routed_read = refl

abbrev dollar_line : Text
dollar_line = codes "#" ++ 10 ∷ []
