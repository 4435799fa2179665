-- ===== src/RateLimiter/Examples.antt =====
-- A run of the script, and instances of the theorems on the rate limiter.
use ai_task_orchestrator.Base.{ℕ, ◌+◌, ◌*◌, ◌-◌, ◌≤◌, ◌≡◌, refl, false, some, [], ◌∷◌, pos, arith}
use ai_task_orchestrator.RateLimiter.{Bucket, unit, acquire, Waited, wait_for_token}
use ai_task_orchestrator.RateLimiter.Script.{Holds, level}
use ai_task_orchestrator.RateLimiter.Budget.{tokens_taken, last_time, tokens_taken_bound}
use ai_task_orchestrator.RateLimiter.Waiting.{IsPaced, wait_for_token-returns}

-- Half a second after the only token was taken, a limit of one for each minute gives nothing.
acquire_short :
    acquire 1 500 (some (record { tokens = pos 0; last = 0 }))
    ≡ (record { tokens = pos 500; last = 500 }, false)
unfolding acquire
acquire_short = refl

-- A bucket of one and a half tokens.
abbrev used_bucket : Bucket
used_bucket = record { tokens = pos 90000; last = 0 }

budget_example :
    (tokens_taken 50 (some used_bucket) (1000 ∷ 2000 ∷ 4000 ∷ []) * unit
      ≤ level 50 1000 used_bucket 90000 + (last_time 1000 (2000 ∷ 4000 ∷ []) - 1000) * 50)
    × (level 50 1000 used_bucket 90000 ≤ 50 * unit)
budget_example =
    tokens_taken_bound 50 1000 (some used_bucket) 90000 (2000 ∷ 4000 ∷ [])
      (record { tokens = refl; within = omega arith; past = omega arith })
      (omega arith, (omega arith, tt))

abbrev empty_bucket : Bucket
empty_bucket = record { tokens = pos 0; last = 0 }

abbrev seconds : ℕ → ℕ
seconds i = i * 1000

seconds-IsPaced : IsPaced seconds
seconds-IsPaced = (omega arith, λ i. omega arith)

empty_bucket-Holds : Holds 1 (seconds 0) empty_bucket 0
empty_bucket-Holds = record { tokens = refl; within = omega arith; past = omega arith }

waiting_example :
    (w : Waited) × (wait_for_token 1 seconds (λ i b. some b) 61 (some empty_bucket) ≡ some w)
    × (w.attempt ≤ 61)
    × (w.rate_limited ≤ 1)
waiting_example =
    wait_for_token-returns 1 seconds (λ i b. some b) empty_bucket 0 (λ i b. refl) seconds-IsPaced
      (omega arith) empty_bucket-Holds
