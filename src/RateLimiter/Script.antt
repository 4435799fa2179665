-- ===== src/RateLimiter/Script.antt =====
-- One run of the script while the clock does not go back.
use ai_task_orchestrator.Base.{
  ℕ, ◌+◌, ◌*◌, ◌-◌, ◌≤◌, ◌<◌, ◌≡◌, refl, sym, ap, ◌∙◌, Bool, true, false, none, some, pos, leb,
  if◌then◌else◌, arith, ◌⊎◌, inl, inr, Bool-cases,
}
use ai_task_orchestrator.RateLimiter.{Bucket, unit, refilled, take, acquire, expiry_ms}

-- The bucket holds `n` units, at most as many as `max` tokens, and is not of the future.
pub record Holds (max now : ℕ) (b : Bucket) (n : ℕ) : Type 0 where
  pub tokens : b.tokens ≡ pos n
  pub within : n ≤ max * unit
  pub past : b.last ≤ now

-- What it holds at `now`.
abbrev pub level : (max now : ℕ) → Bucket → ℕ → ℕ
level max now b n =
    if leb (max * unit) (n + (now - b.last) * max) then max * unit else n + (now - b.last) * max

elapsed_mul : (last now max : ℕ) → last ≤ now → now * max ≡ last * max + (now - last) * max
elapsed_mul last now max h = grind arith

refilled-pos :
    (max now : ℕ) (b : Bucket) (n : ℕ)
    → Holds max now b n
    → refilled max now b ≡ pos (n + (now - b.last) * max)
refilled-pos max now b n h = rw h.tokens (ground (arith, elapsed_mul b.last now max h.past))

-- The script takes a token exactly if the level is at least one token, and leaves the rest.
pub acquire-some :
    (max now : ℕ) (b : Bucket) (n : ℕ)
    → Holds max now b n
    → acquire max now (some b) ≡ take now (pos (level max now b n))
unfolding acquire
acquire-some max now b n h = rw (refilled-pos max now b n h) (ground arith)

-- The level stays within the bucket, and is at least the time since the last use.
pub level_bounds :
    (max now : ℕ) (b : Bucket) (n : ℕ)
    → (level max now b n ≤ max * unit) × (level max now b n ≤ n + (now - b.last) * max)
level_bounds max now b n = (ground arith, ground arith)

-- The bucket after the script: at least one token was there and is taken, or nothing is.
pub record Ran (max now m : ℕ) (r : Bucket × Bool) : Type 0 where
  pub last : r.0.last ≡ now
  pub taken :
      (unit ≤ m) × (r.1 ≡ true) × (r.0.tokens ≡ pos (m - unit))
      ⊎ (m < unit) × (r.1 ≡ false) × (r.0.tokens ≡ pos m)

take-Ran : (max now m : ℕ) → Ran max now m (take now (pos m))
take-Ran max now m = elim (Bool-cases (leb unit m)) [
  | inl t ↦ rw t (record { last = refl; taken = inl (ground arith, refl, refl) })
  | inr f ↦ rw f (record { last = refl; taken = inr (ground arith, refl, refl) })
]

pub acquire-Ran :
    (max now : ℕ) (b : Bucket) (n : ℕ)
    → Holds max now b n
    → Ran max now (level max now b n) (acquire max now (some b))
acquire-Ran max now b n h = rw (acquire-some max now b n h) (take-Ran max now (level max now b n))

-- A key that is not there counts as a full bucket.
abbrev pub full : (max now : ℕ) → Bucket
full max now = record { tokens = pos (max * unit); last = now }

pub acquire-none : (max now : ℕ) → acquire max now none ≡ acquire max now (some (full max now))
unfolding acquire
acquire-none max now = refl

pub full-Holds : (max now : ℕ) → Holds max now (full max now) (max * unit)
full-Holds max now = record { tokens = refl; within = omega arith; past = omega arith }

-- A key that has expired, two windows after its last use, makes no difference: what the script does
-- without the key is what it would have done with it.
pub acquire-expired :
    (max now : ℕ) (b : Bucket) (n : ℕ)
    → b.tokens ≡ pos n
    → n ≤ max * unit
    → b.last + expiry_ms ≤ now
    → acquire max now none ≡ acquire max now (some b)
acquire-expired max now b n e within old =
    let held : Holds max now b n = record { tokens = e; within = within; past = omega arith } in
    let waited : expiry_ms * max ≤ (now - b.last) * max = grind arith in
    let level_full : level max now b n ≡ max * unit = ground arith in
    let fresh : level max now (full max now) (max * unit) ≡ max * unit = ground arith in
    acquire-none max now
    ∙ acquire-some max now (full max now) (max * unit) (full-Holds max now)
    ∙ ap (λ m. take now (pos m)) (fresh ∙ sym level_full)
    ∙ sym (acquire-some max now b n held)
