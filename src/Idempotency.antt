-- ===== src/Idempotency.antt =====
-- libs/idempotency/src/idempotency.service.ts and apps/api/src/tasks/interceptors/
-- idempotency.interceptor.ts. The Redis commands are an interface; its laws are those of the
-- documented commands, before a key's time to live is over.
pub mod Requests
mod Examples
use Prim.Native.String
use ai_task_orchestrator.Base.{
  ℕ, String, Bool, true, false, ◌≡◌, Option, none, some, if◌then◌else◌, ◌==◌,
}
use ai_task_orchestrator.Base.Json.{Json}

pub data IdempotencyEntry : Type 0 where
  processing : IdempotencyEntry
  done : (response : Json) → IdempotencyEntry

pub record Cache : Type 1 where
  pub Store : Type 0
  pub get : Store → String → Option IdempotencyEntry
  -- SET … EX
  pub set : Store → String → IdempotencyEntry → ℕ → Store
  -- SET … EX … NX, with `true` for the reply OK
  pub set_nx : Store → String → IdempotencyEntry → ℕ → Store × Bool
  pub get-set :
      (s : Store) (k : String) (e : IdempotencyEntry) (ttl : ℕ) → get (set s k e ttl) k ≡ some e
  pub set_nx-free :
      (s : Store) (k : String) (e : IdempotencyEntry) (ttl : ℕ)
      → get s k ≡ none
      → set_nx s k e ttl ≡ (set s k e ttl, true)
  pub set_nx-taken :
      (s : Store) (k : String) (e old : IdempotencyEntry) (ttl : ℕ)
      → get s k ≡ some old
      → set_nx s k e ttl ≡ (s, false)

abbrev pub key_prefix : String
key_prefix = "idempotency:"

abbrev pub redis_key : String → String
redis_key key = String.◌++◌ key_prefix key

-- What the interceptor does with a request: it hands it on, refuses it with 409, or answers the
-- cached response.
pub data Decision : Type 0 where
  proceed conflict : Decision
  cached : (response : Json) → Decision

unfoldable pub decide : Option IdempotencyEntry → Decision
decide none = proceed
decide (some processing) = conflict
decide (some (done response)) = cached response

module _ (c : Cache) (ttl_seconds : ℕ) where
  open c use {Store, get, set, set_nx}

  -- `between` is what other clients do to the store between the two commands.
  unfoldable pub acquire :
      (between : Store → Store) → Store → String → Store × Option IdempotencyEntry
  acquire between s key =
      let (s₁, won) = set_nx s (redis_key key) processing ttl_seconds in
      if won then (s₁, none) else (between s₁, get (between s₁) (redis_key key))

  unfoldable pub complete : Store → String → Json → Store
  complete s key response = set s (redis_key key) (done response) ttl_seconds

  -- `intercept` up to the handler. A missing or empty header is no key.
  unfoldable pub intercept : (between : Store → Store) → Store → Option String → Store × Decision
  unfolding acquire decide
  intercept between s none = (s, proceed)
  intercept between s (some key) =
      if key == ""
      then (s, proceed)
      else let (s', entry) = acquire between s key in (s', decide entry)

  -- What follows the handler: only a response is stored, an exception of the handler is not.
  unfoldable pub after_handler : Store → String → Option Json → Store
  unfolding complete
  after_handler s key none = s
  after_handler s key (some response) = complete s key response
