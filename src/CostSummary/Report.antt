-- ===== src/CostSummary/Report.antt =====
-- The results of cost-summary.service.ts: labels, rows and the summary.
use Prim.Native.String
use ai_task_orchestrator.Base.{
  ℕ, ◌-◌, String, Bool, true, false, List, [], ◌∷◌, ◌++◌, map, Option, none, some, get_or, length,
  ltb, eqb, if◌then◌else◌, ◌&&◌,
}
use ai_task_orchestrator.Base.Sorting.{sort}
use ai_task_orchestrator.CostSummary.{
  Text, Decimal, Row, codes, label_in, rows, rows_from, parse_simple_counter, parse_labeled_counter,
}

abbrev same_text : Text → Text → Bool
same_text [] [] = true
same_text [] (d ∷ ds) = false
same_text (c ∷ cs) [] = false
same_text (c ∷ cs) (d ∷ ds) = eqb c d && same_text cs ds

-- `out[k] = v`
abbrev put : Text → Decimal → List (Text × Decimal) → List (Text × Decimal)
put k v [] = (k, v) ∷ []
put k v ((j, w) ∷ out) = if same_text j k then (j, v) ∷ out else (j, w) ∷ put k v out

abbrev put_label : Option Text → Decimal → List (Text × Decimal) → List (Text × Decimal)
put_label none v out = out
put_label (some k) v out = put k v out

abbrev collect : (key : Text) → List Row → List (Text × Decimal) → List (Text × Decimal)
collect key [] out = out
collect key (row ∷ rest) out = collect key rest (put_label (label_in key row.labels) row.value out)

unfoldable pub parse_all_labels : (text name key : Text) → List (Text × Decimal)
unfolding label_in rows_from
parse_all_labels text name key = collect key (rows name text) []

pub record ModelCostRow : Type 0 where
  pub model : Text
  pub task_type : Text
  pub count : Decimal

-- `b.count - a.count <= 0` on decimals: the digits before the point without leading zeros, then those
-- behind it.
abbrev pub significant : List ℕ → List ℕ
significant [] = []
significant (d ∷ ds) = let rest = significant ds in if eqb d 48 then rest else d ∷ ds

-- Digit by digit; a digit that is missing is a zero.
abbrev pub digits_le : List ℕ → List ℕ → Bool
digits_le [] ys = true
digits_le (x ∷ xs) [] = eqb x 0 && digits_le xs []
digits_le (x ∷ xs) (y ∷ ys) =
    let rest = digits_le xs ys in if ltb x y then true else if ltb y x then false else rest

abbrev pub digit_values : List ℕ → List ℕ
digit_values = map (λ d. d - 48)

abbrev pub whole_le : (a b : List ℕ) (rest : Bool) → Bool
whole_le a b rest =
    if ltb (length a) (length b) then true else if ltb (length b) (length a) then false else rest

unfoldable pub decimal_le : Decimal → Decimal → Bool
decimal_le a b =
    let x = significant a.whole in
    let y = significant b.whole in
    whole_le x y (digits_le (digit_values (x ++ a.fraction)) (digit_values (y ++ b.fraction)))

abbrev pub row_of : Row → ModelCostRow
row_of row = record {
  model = get_or (label_in (codes "model") row.labels) (codes "unknown");
  task_type = get_or (label_in (codes "taskType") row.labels) (codes "none");
  count = row.value;
}

unfoldable pub parse_routed : Text → List ModelCostRow
unfolding rows_from label_in decimal_le
parse_routed text =
    sort (λ (a b : ModelCostRow). decimal_le b.count a.count)
      (map row_of (rows (codes "task_routed_total") text))

pub record Summary : Type 0 where
  pub total_cost_usd : Decimal
  pub input_tokens : Decimal
  pub output_tokens : Decimal
  pub rate_limited_by_provider : List (Text × Decimal)
  pub routed_by_model : List ModelCostRow
  pub failed : Decimal
  pub dlq : Decimal
  pub timeout : Decimal
  pub available : Bool
  pub error : Option String

-- What `fetch` and `res.text` give: a text, a status that is not ok, or the message of an error.
pub data MetricsReply : Type 0 where
  answered : Text → MetricsReply
  refused : (status : String) → MetricsReply
  unreachable : (message : String) → MetricsReply

abbrev text_of : MetricsReply → Text
text_of (answered text) = text
text_of _ = []

abbrev error_of : MetricsReply → Option String
error_of (answered text) = none
error_of (refused status) = some (String.◌++◌ "worker metrics returned " status)
error_of (unreachable message) = some message

abbrev is_answered : MetricsReply → Bool
is_answered (answered text) = true
is_answered _ = false

unfoldable pub fetch_summary : MetricsReply → Summary
unfolding parse_simple_counter parse_labeled_counter parse_all_labels parse_routed
fetch_summary reply =
    let text = text_of reply in
    record {
      total_cost_usd = parse_simple_counter text (codes "task_cost_usd_total");
      input_tokens =
          parse_labeled_counter text (codes "task_tokens_total") (codes "direction=\"input\"");
      output_tokens =
          parse_labeled_counter text (codes "task_tokens_total") (codes "direction=\"output\"");
      rate_limited_by_provider =
          parse_all_labels text (codes "task_rate_limited_total") (codes "provider");
      routed_by_model = parse_routed text;
      failed = parse_simple_counter text (codes "task_failed_total");
      dlq = parse_simple_counter text (codes "task_dlq_total");
      timeout = parse_simple_counter text (codes "task_timeout_total");
      available = is_answered reply;
      error = error_of reply;
    }
