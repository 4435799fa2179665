-- ===== src/RateLimiter.antt =====
-- libs/cost-governor/src/rate-limiter.service.ts. Times are milliseconds, as `Date.now()` gives them.
-- A token is 60000 units, so that the refill of the script, `elapsed / window * max` tokens with the
-- window of 60 seconds, is exactly `elapsed * max` units. The script computes in floating point.
pub mod Script
pub mod Budget
pub mod Waiting
mod Examples
use ai_task_orchestrator.Base.{
  ℕ, zero, suc, ◌+◌, ◌*◌, Bool, true, false, Option, none, some, ℤ, pos, negsuc, pos_part, neg_part,
  difference, leb, if◌then◌else◌, ◌-◌,
}
use ai_task_orchestrator.Models.{Provider, anthropic, openai, ollama}

-- The two fields of the hash `ratelimit:{provider}`.
pub record Bucket : Type 0 where
  pub tokens : ℤ
  pub last : ℕ

abbrev pub window_seconds : ℕ
window_seconds = 60

-- One token in units.
abbrev pub unit : ℕ
unit = window_seconds * 1000

-- `math.min(max, …)`
abbrev pub at_most : ℕ → ℤ → ℤ
at_most m (pos n) = if leb m n then pos m else pos n
at_most m (negsuc n) = negsuc n

-- `tokens + elapsed / window * max`. The clock may have gone back.
abbrev pub refilled : (max now : ℕ) → Bucket → ℤ
refilled max now b = difference (pos_part b.tokens + now * max) (neg_part b.tokens + b.last * max)

-- The fields of a key that is not there.
abbrev pub opened : (max now : ℕ) → Option Bucket → Bucket
opened max now none = record { tokens = pos (max * unit); last = now }
opened max now (some b) = b

-- `if tokens >= 1`
abbrev pub take : (now : ℕ) → ℤ → Bucket × Bool
take now (negsuc n) = (record { tokens = negsuc n; last = now }, false)
take now (pos n) =
    if leb unit n
    then (record { tokens = pos (n - unit); last = now }, true)
    else (record { tokens = pos n; last = now }, false)

-- The script: the new bucket, and whether a token was taken.
unfoldable pub acquire : (max now : ℕ) → Option Bucket → Bucket × Bool
acquire max now bucket = take now (at_most (max * unit) (refilled max now (opened max now bucket)))

-- EXPIRE of the script, in milliseconds.
abbrev pub expiry_ms : ℕ
expiry_ms = window_seconds * 2 * 1000

-- The defaults of `limits`.
unfoldable pub default_limit : Provider → ℕ
default_limit anthropic = 50
default_limit openai = 60
default_limit ollama = 999

-- The `while` loop from the attempt `i` on, a unit of fuel for each attempt. `clock i` is the time of
-- the attempt `i`, and `others i` is what other callers and the expiry of the key have made of the
-- bucket when the script runs for it. `none`: the fuel ran out.
unfoldable pub retry :
    (max : ℕ)
    → (clock : ℕ → ℕ) → (others : ℕ → Bucket → Option Bucket) → (fuel i : ℕ) → Bucket
    → Option (Bucket × ℕ)
unfolding acquire
retry max clock others zero i b = none
retry max clock others (suc fuel) i b =
    let (b', taken) = acquire max (clock i) (others i b) in
    let rest = retry max clock others fuel (suc i) b' in if taken then some (b', i) else rest

-- The bucket after it, the number of the attempt that took the token, and how often the metric
-- task_rate_limited_total is advanced.
pub record Waited : Type 0 where
  pub bucket : Bucket
  pub attempt : ℕ
  pub rate_limited : ℕ

abbrev pub limited : Option (Bucket × ℕ) → Option Waited
limited none = none
limited (some (b, i)) = some (record { bucket = b; attempt = i; rate_limited = 1 })

unfoldable pub wait_for_token :
    (max : ℕ)
    → (clock : ℕ → ℕ) → (others : ℕ → Bucket → Option Bucket) → (fuel : ℕ) → Option Bucket
    → Option Waited
unfolding acquire retry
wait_for_token max clock others fuel bucket =
    let (b, taken) = acquire max (clock 0) bucket in
    let rest = limited (retry max clock others fuel 1 b) in
    if taken then some (record { bucket = b; attempt = 0; rate_limited = 0 }) else rest
