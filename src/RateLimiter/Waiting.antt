-- ===== src/RateLimiter/Waiting.antt =====
-- The loop of `waitForToken`, and when it ends.
use ai_task_orchestrator.Base.{
  ℕ, zero, suc, ◌+◌, ◌*◌, ◌-◌, ◌≤◌, ◌<◌, ◌≡◌, refl, ap, ◌∙◌, true, false, Option, some, pos, arith,
  inl, inr,
}
use ai_task_orchestrator.RateLimiter.{Bucket, unit, acquire, retry, Waited, limited, wait_for_token}
use ai_task_orchestrator.RateLimiter.Script.{Holds, level, level_bounds, acquire-Ran}

-- The clock of the attempts: the second one follows at once, each later one after a second or more.
abbrev pub IsPaced : (ℕ → ℕ) → Type 0
IsPaced clock = (clock 0 ≤ clock 1) × ((i : ℕ) → clock (suc i) + 1000 ≤ clock (suc (suc i)))

later :
    (max : ℕ) (b : Bucket) (n now : ℕ)
    → b.tokens ≡ pos n
    → n ≤ max * unit
    → b.last ≤ now
    → Holds max now b n
later max b n now e within past = record { tokens = e; within = within; past = past }

-- No one else takes tokens, and the key does not expire: between two attempts the bucket stays as it is.
abbrev pub IsAlone : (ℕ → Bucket → Option Bucket) → Type 0
IsAlone others = (i : ℕ) (b : Bucket) → others i b ≡ some b

module _ (max : ℕ) (clock : ℕ → ℕ) (others : ℕ → Bucket → Option Bucket) (alone : IsAlone others)
    (fuel : ℕ) where
  -- The outcome of the loop after a first attempt that failed, by the outcome of the second one.
  first_failed :
      (b : Bucket)
      → (acquire max (clock 0) (some b)).1 ≡ false
      → wait_for_token max clock others fuel (some b)
        ≡ limited (retry max clock others fuel 1 (acquire max (clock 0) (some b)).0)
  first_failed b h = unfold wait_for_token in rw h refl

  attempt_taken :
      (i : ℕ) (b : Bucket)
      → (acquire max (clock i) (some b)).1 ≡ true
      → retry max clock others (suc fuel) i b ≡ some ((acquire max (clock i) (some b)).0, i)
  unfolding retry
  attempt_taken i b h = rw (alone i b, h) refl

  attempt_failed :
      (i : ℕ) (b : Bucket)
      → (acquire max (clock i) (some b)).1 ≡ false
      → retry max clock others (suc fuel) i b
        ≡ retry max clock others fuel (suc i) (acquire max (clock i) (some b)).0
  unfolding retry
  attempt_failed i b h = rw (alone i b, h) refl

module _ (max : ℕ) (clock : ℕ → ℕ) (others : ℕ → Bucket → Option Bucket) (alone : IsAlone others)
    (paced : IsPaced clock) (positive : 0 < max) where
  -- Each second brings at least a thousand units.
  refill_lem : (s t : ℕ) → s + 1000 ≤ t → 1000 ≤ (t - s) * max
  refill_lem s t h = grind arith

  level_grows :
      (b : Bucket) (n now : ℕ)
      → Holds max now b n
      → b.last + 1000 ≤ now
      → n < unit
      → level max now b n < unit
      → n + 1000 ≤ level max now b n
  level_grows b n now h late short still = ground (arith, refill_lem b.last now late)

  retry-returns :
      (fuel i : ℕ) (b : Bucket) (n : ℕ)
      → Holds max b.last b n
      → n < unit
      → unit ≤ n + fuel * 1000
      → b.last ≡ clock (suc i)
      → (b' : Bucket) × (j : ℕ) × (retry max clock others fuel (suc (suc i)) b ≡ some (b', j))
        × (j ≤ suc i + fuel)
  unfolding retry
  retry-returns zero i b n h short enough at = absurd (omega arith)
  retry-returns (suc fuel) i b n h short enough at =
      let now = clock (suc (suc i)) in
      let late : b.last + 1000 ≤ now = omega (arith, paced.1 i) in
      let held : Holds max now b n = later max b n now h.tokens h.within (omega arith) in
      let after = (acquire max now (some b)).0 in
      let m = level max now b n in
      let ran = acquire-Ran max now b n held in
      elim ran.taken [
        | inl (_, taken, _) ↦ (
          after,
          suc (suc i),
          attempt_taken max clock others alone fuel (suc (suc i)) b taken,
          omega arith,
        )
        | inr (less, failed, left) ↦
            let more = level_grows b n now held late short less in
            let (b', j, e, bound) =
              retry-returns fuel (suc i) after m
                (later max after m after.last left (level_bounds max now b n).0 (omega arith)) less
                (omega arith) ran.last in
            (
              b',
              j,
              attempt_failed max clock others alone fuel (suc (suc i)) b failed ∙ e,
              omega arith,
            )
      ]

  wait_lem :
      (fuel : ℕ) (b : Bucket) (n : ℕ)
      → Holds max (clock 0) b n
      → unit ≤ fuel * 1000
      → (w : Waited) × (wait_for_token max clock others (suc fuel) (some b) ≡ some w)
        × (w.attempt ≤ suc fuel)
        × (w.rate_limited ≤ 1)
  wait_lem fuel b n h enough =
      let ran = acquire-Ran max (clock 0) b n h in
      let b₀ = (acquire max (clock 0) (some b)).0 in
      let m₀ = level max (clock 0) b n in
      elim ran.taken [
        | inl (_, taken, _) ↦
            unfold wait_for_token in
            rw taken (
              record { bucket = b₀; attempt = 0; rate_limited = 0 },
              refl,
              omega arith,
              omega arith,
            )
        | inr (less, failed, left) ↦
            let held : Holds max (clock 1) b₀ m₀ =
              later max b₀ m₀ (clock 1) left (level_bounds max (clock 0) b n).0
                (omega (arith, ran.last, paced.0)) in
            let ran₁ = acquire-Ran max (clock 1) b₀ m₀ held in
            let b₁ = (acquire max (clock 1) (some b₀)).0 in
            let m₁ = level max (clock 1) b₀ m₀ in
            elim ran₁.taken [
              | inl (_, taken, _) ↦ (
                record { bucket = b₁; attempt = 1; rate_limited = 1 },
                first_failed max clock others alone (suc fuel) b failed
                    ∙ ap limited (attempt_taken max clock others alone fuel 1 b₀ taken),
                omega arith,
                omega arith,
              )
              | inr (less₁, failed₁, left₁) ↦
                  let (b', j, e, bound) =
                    retry-returns fuel 0 b₁ m₁
                      (later max b₁ m₁ b₁.last left₁ (level_bounds max (clock 1) b₀ m₀).0
                        (omega arith))
                      less₁ (omega arith) ran₁.last in
                  (
                    record { bucket = b'; attempt = j; rate_limited = 1 },
                    first_failed max clock others alone (suc fuel) b failed
                        ∙ ap limited (attempt_failed max clock others alone fuel 1 b₀ failed₁ ∙ e),
                    omega arith,
                    omega arith,
                  )
            ]
      ]

-- Let the limit not be 0, the stored bucket hold no more than it and be not of the future, the attempts
-- from the third on follow each other by a second or more, and no other caller or expiry touch the
-- bucket while `waitForToken` runs. Then it returns after 62 attempts at most.
pub wait_for_token-returns :
    (max : ℕ) (clock : ℕ → ℕ) (others : ℕ → Bucket → Option Bucket) (b : Bucket) (n : ℕ)
    → IsAlone others
    → IsPaced clock
    → 0 < max
    → Holds max (clock 0) b n
    → (w : Waited) × (wait_for_token max clock others 61 (some b) ≡ some w)
      × (w.attempt ≤ 61)
      × (w.rate_limited ≤ 1)
wait_for_token-returns max clock others b n alone paced positive h =
    wait_lem max clock others alone paced positive 60 b n h (omega arith)
