-- ===== src/Workflow/Store.antt =====
-- What the DAG coordinator uses of Redis, as an interface: the server is not code of the program.
-- A location is a string key, or a hash with one of its fields; so `get` and `set` stand for GET and
-- SET at a string key and for HGET and HSET at a field. JSON text is represented by the value that
-- it encodes. The laws are those of the documented commands, before a key's time to live is over.
use ai_task_orchestrator.Base.{
  ℕ, String, ◌≡◌, ◌≢◌, Option, some, ℤ, pred, if◌then◌else◌, ◌==◌, eq_cases, List, inl, inr,
}
use ai_task_orchestrator.Base.Json.{Json}
use ai_task_orchestrator.Workflow.{DagNodeInput, DagMeta, NodeStatus}

-- The hashes `dag:{id}:nodes` and so on.
pub data Hash : Type 0 where
  nodes dependents results statuses job_ids failures : Hash

-- `dag:{id}:meta`, `dag:{id}:deps-remaining:{nodeId}`, and the field of a hash.
pub data Location : Type 0 where
  meta : (dag : String) → Location
  remaining : (dag node : String) → Location
  entry : (hash : Hash) (dag node : String) → Location

pub data Value : Type 0 where
  meta_json : DagMeta → Value
  node_json : DagNodeInput → Value
  names_json : List String → Value
  result_json : Json → Value
  number : ℤ → Value
  status : NodeStatus → Value
  text : String → Value

pub record Redis : Type 1 where
  pub Store : Type 0
  pub get : Store → Location → Option Value
  pub set : Store → Location → Value → Store
  -- DECR: the new store and the reply
  pub decr : Store → Location → Store × ℤ
  -- EXPIRE of a whole hash, in seconds
  pub expire : Store → Hash → String → ℕ → Store
  pub get-set_self : (s : Store) (a : Location) (v : Value) → get (set s a v) a ≡ some v
  pub get-set_ne : (s : Store) (a b : Location) (v : Value) → a ≢ b → get (set s a v) b ≡ get s b
  pub decr_number :
      (s : Store) (a : Location) (i : ℤ)
      → get s a ≡ some (number i)
      → decr s a ≡ (set s a (number (pred i)), pred i)
  pub get-expire :
      (s : Store) (h : Hash) (dag : String) (seconds : ℕ) (b : Location)
      → get (expire s h dag seconds) b ≡ get s b

module _ (r : Redis) where
  open r use {Store, get, set, get-set_self, get-set_ne}

  -- A write at one of a family of locations, read at another of the family.
  pub get-set_family :
      (at : String → Location)
      → ((x y : String) → x ≢ y → at x ≢ at y)
      → (s : Store) (x y : String) (v : Value)
      → get (set s (at x) v) (at y) ≡ (if x == y then some v else get s (at y))
  get-set_family at apart s x y v = elim (eq_cases x y) [
    | inl (t, e) ↦ rw (t, ← e) (get-set_self s (at x) v)
    | inr (f, ne) ↦ rw f (get-set_ne s (at x) (at y) v (apart x y ne))
  ]

  pub get-set_remaining :
      (dag : String) (s : Store) (x y : String) (v : Value)
      → get (set s (remaining dag x) v) (remaining dag y)
        ≡ (if x == y then some v else get s (remaining dag y))
  get-set_remaining dag = get-set_family (remaining dag) (λ x y ne e. ne (cc))

  pub get-set_entry :
      (h : Hash) (dag : String) (s : Store) (x y : String) (v : Value)
      → get (set s (entry h dag x) v) (entry h dag y)
        ≡ (if x == y then some v else get s (entry h dag y))
  get-set_entry h dag = get-set_family (entry h dag) (λ x y ne e. ne (cc))
