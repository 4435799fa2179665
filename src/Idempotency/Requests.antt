-- ===== src/Idempotency/Requests.antt =====
-- Requests under one key.
use ai_task_orchestrator.Base.{
  ℕ, zero, suc, String, ◌≡◌, refl, ◌≢◌, Option, none, some, List, [], ◌∷◌, ◌++◌, eq_cases, inl, inr,
}
use ai_task_orchestrator.Base.Json.{Json}
use ai_task_orchestrator.Idempotency.{
  Cache, IdempotencyEntry, processing, done, Decision, proceed, conflict, cached, decide, acquire,
  complete, intercept, after_handler, redis_key,
}

abbrev pub repeat : ℕ → Decision → List Decision
repeat zero d = []
repeat (suc n) d = d ∷ repeat n d

module _ (c : Cache) (ttl : ℕ) (key : String) where
  open c use {Store, get, set, set_nx, get-set, set_nx-free, set_nx-taken}

  -- `n` requests that carry the key, one after the other.
  unfoldable pub arrive : ℕ → Store → Store × List Decision
  unfolding intercept
  arrive zero s = (s, [])
  arrive (suc n) s =
      let (s₁, d) = intercept c ttl (λ t. t) s (some key) in
      let (s₂, ds) = arrive n s₁ in (s₂, d ∷ ds)

  -- `before` more requests come while the first one is handled, and `later` ones after it.
  unfoldable pub session : (before later : ℕ) → Option Json → Store → List Decision
  unfolding arrive after_handler
  session before later outcome s =
      let (s₁, first) = arrive (suc before) s in
      let (s₂, rest) = arrive later (after_handler c ttl s₁ key outcome) in first ++ rest

  taken_lem :
      (s : Store) (e : IdempotencyEntry)
      → key ≢ ""
      → get s (redis_key key) ≡ some e
      → intercept c ttl (λ t. t) s (some key) ≡ (s, decide (some e))
  unfolding intercept acquire
  taken_lem s e ne h = elim (eq_cases key "") [
    | inl (_, q) ↦ absurd (ne q)
    | inr (f, _) ↦ rw (f, set_nx-taken s (redis_key key) processing e ttl h, h) refl
  ]

  arrive-taken :
      (n : ℕ) (s : Store) (e : IdempotencyEntry)
      → key ≢ ""
      → get s (redis_key key) ≡ some e
      → arrive n s ≡ (s, repeat n (decide (some e)))
  unfolding arrive
  arrive-taken zero s e ne h = refl
  arrive-taken (suc n) s e ne h = rw (taken_lem s e ne h, arrive-taken n s e ne h) refl

  free_lem :
      (s : Store)
      → key ≢ ""
      → get s (redis_key key) ≡ none
      → intercept c ttl (λ t. t) s (some key) ≡ (set s (redis_key key) processing ttl, proceed)
  unfolding intercept acquire decide
  free_lem s ne h = elim (eq_cases key "") [
    | inl (_, q) ↦ absurd (ne q)
    | inr (f, _) ↦ rw (f, set_nx-free s (redis_key key) processing ttl h) refl
  ]

-- Of the requests with one fresh key, the first is handled. Those that come before its response are
-- refused with 409, and those that come after it are answered by the same response.
pub session-answered :
    (c : Cache) (ttl : ℕ) (key : String) (s : c.Store) (before later : ℕ) (response : Json)
    → key ≢ ""
    → c.get s (redis_key key) ≡ none
    → session c ttl key before later (some response) s
      ≡ (proceed ∷ repeat before conflict) ++ repeat later (cached response)
unfolding session arrive after_handler complete decide
session-answered c ttl key s before later response ne h =
    let k = redis_key key in
    let s₁ = c.set s k processing ttl in
    let s₂ = c.set s₁ k (done response) ttl in
    rw
      (
        free_lem c ttl key s ne h,
        arrive-taken c ttl key before s₁ processing ne (c.get-set s k processing ttl),
        arrive-taken c ttl key later s₂ (done response) ne (c.get-set s₁ k (done response) ttl),
      )
      refl

-- If the handler throws, every later request with its key is refused with 409, as long as the key
-- lives: none of them is handled.
pub session-thrown :
    (c : Cache) (ttl : ℕ) (key : String) (s : c.Store) (before later : ℕ)
    → key ≢ ""
    → c.get s (redis_key key) ≡ none
    → session c ttl key before later none s
      ≡ (proceed ∷ repeat before conflict) ++ repeat later conflict
unfolding session arrive after_handler decide
session-thrown c ttl key s before later ne h =
    let k = redis_key key in
    let s₁ = c.set s k processing ttl in
    let held = c.get-set s k processing ttl in
    rw
      (
        free_lem c ttl key s ne h,
        arrive-taken c ttl key before s₁ processing ne held,
        arrive-taken c ttl key later s₁ processing ne held,
      )
      refl
