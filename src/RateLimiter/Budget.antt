-- ===== src/RateLimiter/Budget.antt =====
-- How many tokens are taken in a stretch of time.
use ai_task_orchestrator.Base.{
  ℕ, ◌+◌, ◌*◌, ◌-◌, ◌≤◌, ◌≡◌, refl, sym, subst, Option, none, some, List, [], ◌∷◌, pos,
  if◌then◌else◌, arith, inl, inr,
}
use ai_task_orchestrator.RateLimiter.{Bucket, unit, acquire, opened}
use ai_task_orchestrator.RateLimiter.Script.{Holds, level, level_bounds, acquire-Ran}

-- The tokens that are taken by calls of `acquire` at the given times.
unfoldable pub tokens_taken : (max : ℕ) → Option Bucket → List ℕ → ℕ
tokens_taken max b [] = 0
tokens_taken max b (t ∷ ts) =
    let (b', taken) = acquire max t b in (if taken then 1 else 0) + tokens_taken max (some b') ts

-- The times do not go back.
abbrev pub Rising : ℕ → List ℕ → Type 0
Rising t [] = Unit {0}
Rising t (u ∷ us) = (t ≤ u) × Rising u us

abbrev pub last_time : ℕ → List ℕ → ℕ
last_time t [] = t
last_time t (u ∷ us) = last_time u us

le-last_time : (t : ℕ) (ts : List ℕ) → Rising t ts → t ≤ last_time t ts
le-last_time t [] h = omega arith
le-last_time t (u ∷ us) h = omega (arith, h.0, le-last_time u us h.1)

elapsed_split : (s t u max : ℕ) → s ≤ t → t ≤ u → (t - s) * max + (u - t) * max ≡ (u - s) * max
elapsed_split s t u max h k = grind arith

kept : (max : ℕ) (b : Bucket) (n : ℕ) → b.tokens ≡ pos n → n ≤ max * unit → Holds max b.last b n
kept max b n e h = record { tokens = e; within = h; past = omega arith }

at_time :
    (max : ℕ) (b : Bucket) (t : ℕ) (ts : List ℕ) (n : ℕ)
    → b.last ≡ t
    → tokens_taken max (some b) ts * unit ≤ n + (last_time b.last ts - b.last) * max
    → tokens_taken max (some b) ts * unit ≤ n + (last_time t ts - t) * max
at_time max b t ts n e h =
    subst (λ (x : ℕ). tokens_taken max (some b) ts * unit ≤ n + (last_time x ts - x) * max) e h

budget_lem :
    (max : ℕ) (b : Bucket) (n : ℕ) (ts : List ℕ)
    → Holds max b.last b n
    → Rising b.last ts
    → tokens_taken max (some b) ts * unit ≤ n + (last_time b.last ts - b.last) * max
unfolding tokens_taken
budget_lem max b n [] h r = omega arith
budget_lem max b n (t ∷ ts) h r =
    let held : Holds max t b n = record { tokens = h.tokens; within = h.within; past = r.0 } in
    let after = (acquire max t (some b)).0 in
    let m = level max t b n in
    let ran = acquire-Ran max t b n held in
    let bounds = level_bounds max t b n in
    let split = elapsed_split b.last t (last_time t ts) max r.0 (le-last_time t ts r.1) in
    let rising = subst (λ (x : ℕ). Rising x ts) (sym ran.last) r.1 in
    elim ran.taken [
      | inl (enough, yes_taken, left) ↦
          let ih =
            budget_lem max after (m - unit) ts
              (kept max after (m - unit) left (omega (arith, bounds.0))) rising in
          rw yes_taken
            (omega (arith, bounds.1, split, at_time max after t ts (m - unit) ran.last ih))
      | inr (short, not_taken, left) ↦
          let ih = budget_lem max after m ts (kept max after m left bounds.0) rising in
          rw not_taken (omega (arith, bounds.1, split, at_time max after t ts m ran.last ih))
    ]

-- A key that is not there counts as a full bucket.
tokens_taken-opened :
    (max start : ℕ) (b : Option Bucket) (times : List ℕ)
    → tokens_taken max b (start ∷ times)
      ≡ tokens_taken max (some (opened max start b)) (start ∷ times)
unfolding tokens_taken acquire
tokens_taken-opened max start none times = refl
tokens_taken-opened max start (some b) times = refl

-- Let the key not be there, or hold a bucket that is within the limit and not of the future. Then
-- calls of `acquire` at times that do not go back take no more tokens than the bucket holds at the
-- first of them, which is at most `max`, and `max` for each minute between the first and the last of
-- them, in proportion. A key that is not there counts as a full bucket.
pub tokens_taken_bound :
    (max start : ℕ) (b : Option Bucket) (n : ℕ) (times : List ℕ)
    → Holds max start (opened max start b) n
    → Rising start times
    → (tokens_taken max b (start ∷ times) * unit
        ≤ level max start (opened max start b) n + (last_time start times - start) * max)
      × (level max start (opened max start b) n ≤ max * unit)
unfolding tokens_taken
tokens_taken_bound max start b n times held r =
    let from = opened max start b in
    let after = (acquire max start (some from)).0 in
    let m = level max start from n in
    let ran = acquire-Ran max start from n held in
    let bounds = level_bounds max start from n in
    let rising = subst (λ (x : ℕ). Rising x times) (sym ran.last) r in
    (
      rw (tokens_taken-opened max start b times) (elim ran.taken [
        | inl (enough, yes_taken, left) ↦
            let ih =
              budget_lem max after (m - unit) times
                (kept max after (m - unit) left (omega (arith, bounds.0))) rising in
            rw yes_taken (omega (arith, at_time max after start times (m - unit) ran.last ih))
        | inr (short, not_taken, left) ↦
            let ih = budget_lem max after m times (kept max after m left bounds.0) rising in
            rw not_taken (omega (arith, at_time max after start times m ran.last ih))
      ]),
      bounds.0,
    )
