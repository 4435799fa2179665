-- ===== src/CostSummary/Rows.antt =====
-- The order of the rows that `parseRouted` returns, and what a counter reads back.
use ai_task_orchestrator.Base.{
  ℕ, ◌≡◌, refl, Bool, true, false, List, [], ◌∷◌, ◌++◌, map, Option, none, arith,
}
use ai_task_orchestrator.Base.Sorting.{IsSorted, sort-IsSorted, tally, tally-sort}
use ai_task_orchestrator.CostSummary.{Text, Decimal, is_line_end, is_digit, codes, rows}
use ai_task_orchestrator.CostSummary.Report.{
  digits_le, digit_values, whole_le, significant, decimal_le, row_of, ModelCostRow, parse_routed,
}

digits_le_total : (xs ys : List ℕ) → digits_le xs ys ≡ false → digits_le ys xs ≡ true
digits_le_total [] ys h = cc
digits_le_total (x ∷ xs) [] h = refl
digits_le_total (x ∷ xs) (y ∷ ys) h = ground (arith, h, digits_le_total xs ys)

digits_le_trans :
    (xs ys zs : List ℕ) → digits_le xs ys ≡ true → digits_le ys zs ≡ true → digits_le xs zs ≡ true
digits_le_trans [] ys zs h k = refl
digits_le_trans (x ∷ xs) [] [] h k = h
digits_le_trans (x ∷ xs) [] (z ∷ zs) h k = ground (arith, h, digits_le_trans xs [] zs)
digits_le_trans (x ∷ xs) (y ∷ ys) [] h k = ground (arith, h, k, digits_le_trans xs ys [])
digits_le_trans (x ∷ xs) (y ∷ ys) (z ∷ zs) h k = ground (arith, h, k, digits_le_trans xs ys zs)

whole_le_total :
    (a b : List ℕ) (r r' : Bool)
    → (r ≡ false → r' ≡ true)
    → whole_le a b r ≡ false
    → whole_le b a r' ≡ true
whole_le_total a b r r' h k = ground (arith, h, k)

whole_le_trans :
    (a b c : List ℕ) (r r' r'' : Bool)
    → (r ≡ true → r' ≡ true → r'' ≡ true)
    → whole_le a b r ≡ true
    → whole_le b c r' ≡ true
    → whole_le a c r'' ≡ true
whole_le_trans a b c r r' r'' t h k = ground (arith, t, h, k)

decimal_le_total : (a b : Decimal) → decimal_le a b ≡ false → decimal_le b a ≡ true
unfolding decimal_le
decimal_le_total a b h =
    let x = significant a.whole in
    let y = significant b.whole in
    whole_le_total x y _ _
      (digits_le_total (digit_values (x ++ a.fraction)) (digit_values (y ++ b.fraction))) h

decimal_le_trans :
    (a b c : Decimal) → decimal_le a b ≡ true → decimal_le b c ≡ true → decimal_le a c ≡ true
unfolding decimal_le
decimal_le_trans a b c h k =
    let x = significant a.whole in
    let y = significant b.whole in
    let z = significant c.whole in
    whole_le_trans x y z _ _ _
      (digits_le_trans (digit_values (x ++ a.fraction)) (digit_values (y ++ b.fraction))
        (digit_values (z ++ c.fraction)))
      h k

-- Whatever the text is, `parseRouted` returns a row for each row of the counter that it finds, and no
-- others, by falling count.
pub parse_routed-IsSorted :
    (text : Text)
    → IsSorted (λ (a b : ModelCostRow). decimal_le b.count a.count) (parse_routed text)
      × ((p : ModelCostRow → Bool)
          → tally p (parse_routed text)
            ≡ tally p (map row_of (rows (codes "task_routed_total") text)))
unfolding parse_routed
parse_routed-IsSorted text =
    let falls = λ (a b : ModelCostRow). decimal_le b.count a.count in
    let found = map row_of (rows (codes "task_routed_total") text) in
    (
      sort-IsSorted falls (λ a b. decimal_le_total b.count a.count)
          (λ a b c h k. decimal_le_trans c.count b.count a.count k h) found,
      λ p. tally-sort falls p found,
    )

-- A pattern that matches at no line start of `before`, when `text` follows.
abbrev pub Misses :
    {A : Type 0} → (Text → Option A) → (at_start : Bool) → (before text : Text) → Type 0
Misses try at_start [] text = Unit
Misses try at_start (c ∷ before) text =
    (at_start ≡ true → try (c ∷ before ++ text) ≡ none) × Misses try (is_line_end c) before text

-- Whether a line starts behind `before`.
abbrev pub starts_line : (at_start : Bool) → (before : Text) → Bool
starts_line at_start [] = at_start
starts_line at_start (c ∷ before) = starts_line (is_line_end c) before

abbrev pub AllDigits : List ℕ → Type 0
AllDigits [] = Unit
AllDigits (d ∷ ds) = (is_digit d ≡ true) × AllDigits ds

-- The line of a counter with the digits of its value.
abbrev pub counter_line : (name : Text) (ds : List ℕ) (behind : Text) → Text
counter_line name ds behind = name ++ (32 ∷ (ds ++ behind))
