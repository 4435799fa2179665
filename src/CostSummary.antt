-- ===== src/CostSummary.antt =====
-- apps/api/src/metrics/cost-summary.service.ts: what is read from the text of the worker's counters.
-- A text is the list of its characters' numbers. A number is kept in the decimal digits that are read.
pub mod Report
pub mod Rows
mod Examples
use Prim.Native.String
use Prim.Native.Char.{code}
use ai_task_orchestrator.Base.{
  ℕ, zero, suc, ◌-◌, String, Bool, true, false, List, [], ◌∷◌, ◌++◌, map, Option, none, some,
  get_or, length, ltb, leb, eqb, if◌then◌else◌, ◌&&◌, ◌||◌, not,
}
use ai_task_orchestrator.Base.Sorting.{sort}

abbrev pub Text : Type 0
Text = List ℕ

abbrev pub codes : String → Text
codes String.[] = []
codes (String.◌∷◌ c s) = code c ∷ codes s

-- `$` and `^` under the flag `m`.
abbrev pub is_line_end : ℕ → Bool
is_line_end c = eqb c 10 || eqb c 13 || eqb c 8232 || eqb c 8233

-- `\s`
abbrev pub is_space : ℕ → Bool
is_space c =
    leb 9 c && leb c 13
    || eqb c 32
    || eqb c 160
    || eqb c 5760
    || leb 8192 c && leb c 8202
    || is_line_end c
    || eqb c 8239
    || eqb c 8287
    || eqb c 12288
    || eqb c 65279

-- `\d`
abbrev pub is_digit : ℕ → Bool
is_digit c = leb 48 c && leb c 57

-- The digits of `\d+(?:\.\d+)?`, before the point and behind it.
pub record Decimal : Type 0 where
  pub whole : List ℕ
  pub fraction : List ℕ

-- The longest prefix that passes a test, and the rest.
abbrev pub span : (ℕ → Bool) → Text → Text × Text
span p [] = ([], [])
span p (c ∷ text) = let rest = span p text in if p c then (c ∷ rest.0, rest.1) else ([], c ∷ text)

unfoldable pub strip : (prefix text : Text) → Option Text
strip [] text = some text
strip (p ∷ prefix) [] = none
strip (p ∷ prefix) (c ∷ text) = let rest = strip prefix text in if eqb p c then rest else none

abbrev with_fraction : Text → Text × Text → Text → Decimal × Text
with_fraction whole ([], behind) rest = (record { whole = whole; fraction = [] }, rest)
with_fraction whole (d ∷ ds, behind) rest = (record { whole = whole; fraction = d ∷ ds }, behind)

-- `(\d+(?:\.\d+)?)`: what is read, and the rest.
abbrev number_after : Text × Text → Option (Decimal × Text)
number_after ([], rest) = none
number_after (d ∷ ds, []) = some (record { whole = d ∷ ds; fraction = [] }, [])
number_after (d ∷ ds, c ∷ rest) =
    if eqb c 46
    then some (with_fraction (d ∷ ds) (span is_digit rest) (c ∷ rest))
    else some (record { whole = d ∷ ds; fraction = [] }, c ∷ rest)

-- `\s+(\d+(?:\.\d+)?)`
abbrev value_after : Text × Text → Option (Decimal × Text)
value_after ([], rest) = none
value_after (s ∷ spaces, rest) = number_after (span is_digit rest)

abbrev pub value_at : Text → Option (Decimal × Text)
value_at text = value_after (span is_space text)

-- `^name\s+(…)` at a position.
unfoldable pub simple_at : (name text : Text) → Option (Decimal × Text)
unfolding strip
simple_at name text = elim (strip name text) [ none ↦ none | some rest ↦ value_at rest ]

-- A row with labels: what stands between the braces, the value and the rest.
pub record Row : Type 0 where
  pub labels : Text
  pub value : Decimal
  pub rest : Text

abbrev row_value : Text → Option (Decimal × Text) → Option Row
row_value labels none = none
row_value labels (some (value, rest)) =
    some (record { labels = labels; value = value; rest = rest })

-- `([^}]*)\}\s+(…)`
abbrev row_body : Text × Text → Option Row
row_body (labels, []) = none
row_body (labels, c ∷ rest) = row_value labels (value_at rest)

abbrev row_open : Option Text → Option Row
row_open none = none
row_open (some []) = none
row_open (some (c ∷ rest)) = if eqb c 123 then row_body (span (λ d. not (eqb d 125)) rest) else none

-- `^name\{([^}]*)\}\s+(…)` at a position.
unfoldable pub row_at : (name text : Text) → Option Row
unfolding strip
row_at name text = row_open (strip name text)

-- `re.exec(text)` for a pattern that starts with `^`: the first line at which it matches.
unfoldable pub first_line : {A : Type 0} → (Text → Option A) → (at_start : Bool) → Text → Option A
first_line try at_start [] = if at_start then try [] else none
first_line try at_start (c ∷ text) =
    let later = first_line try (is_line_end c) text in
    let here = if at_start then try (c ∷ text) else none in
    elim here [ some a ↦ some a | none ↦ later ]

abbrev pub no_number : Decimal
no_number = record { whole = 48 ∷ []; fraction = [] }

abbrev pub read_value : Option (Decimal × Text) → Decimal
read_value none = no_number
read_value (some (d, rest)) = d

unfoldable pub parse_simple_counter : (text name : Text) → Decimal
unfolding first_line simple_at
parse_simple_counter text name = read_value (first_line (simple_at name) true text)

-- `labelKey="([^"]+)"`, first at a position, then anywhere.
abbrev quoted : Text × Text → Option Text
quoted ([], rest) = none
quoted (c ∷ value, []) = none
quoted (c ∷ value, q ∷ rest) = some (c ∷ value)

abbrev label_at : (key text : Text) → Option Text
label_at key text = elim (strip (key ++ 61 ∷ 34 ∷ []) text) [
  | none ↦ none
  | some rest ↦ quoted (span (λ d. not (eqb d 34)) rest)
]

unfoldable pub label_in : (key text : Text) → Option Text
unfolding strip
label_in key [] = none
label_in key (c ∷ text) =
    let later = label_in key text in
    elim (label_at key (c ∷ text)) [ some v ↦ some v | none ↦ later ]

-- Whether a text holds another one.
unfoldable pub contains : (part text : Text) → Bool
unfolding strip
contains part [] = elim (strip part []) [ none ↦ false | some rest ↦ true ]
contains part (c ∷ text) =
    let later = contains part text in
    elim (strip part (c ∷ text)) [ none ↦ later | some rest ↦ true ]

abbrev labeled : Text → Option Row → Option Decimal
labeled label none = none
labeled label (some row) = if contains label row.labels then some row.value else none

-- The label is `key="value"`.
unfoldable pub parse_labeled_counter : (text name label : Text) → Decimal
unfolding first_line row_at contains
parse_labeled_counter text name label =
    get_or (first_line (λ t. labeled label (row_at name t)) true text) no_number

-- The matches of `^name\{…` under the flag `g`, each from the end of the one before it: `skip`
-- characters belong to that one.
unfoldable pub rows_from : (name : Text) (skip : ℕ) (at_start : Bool) → Text → List Row
unfolding row_at
rows_from name skip at_start [] = []
rows_from name (suc skip) at_start (c ∷ text) = rows_from name skip (is_line_end c) text
rows_from name zero at_start (c ∷ text) =
    let later = rows_from name 0 (is_line_end c) text in
    elim (if at_start then row_at name (c ∷ text) else none) [
      | none ↦ later
      | some row ↦ row ∷ rows_from name (length text - length row.rest) (is_line_end c) text
    ]

abbrev pub rows : (name text : Text) → List Row
rows name text = rows_from name 0 true text
