-- ===== src/Workflow/Memory.antt =====
-- A store in memory: it shows that the laws of `Redis` can be met, and it runs the examples.
use ai_task_orchestrator.Base.{
  ℕ, Bool, true, false, ◌&&◌, ◌≡◌, refl, ◌≢◌, Option, none, some, ℤ, pos, pred, if◌then◌else◌, ◌==◌,
  eq_iff, eq_refl, eqb, arith, Bool-cases, inl, inr,
}
use ai_task_orchestrator.Workflow.Store.{
  Redis, Hash, nodes, dependents, results, statuses, job_ids, failures, Location, meta, remaining,
  entry, Value, number,
}

abbrev pub hash_number : Hash → ℕ
hash_number nodes = 0
hash_number dependents = 1
hash_number results = 2
hash_number statuses = 3
hash_number job_ids = 4
hash_number failures = 5

hash_number-injective : (a b : Hash) → hash_number a ≡ hash_number b → a ≡ b
hash_number-injective nodes b h = ground arith
hash_number-injective dependents b h = ground arith
hash_number-injective results b h = ground arith
hash_number-injective statuses b h = ground arith
hash_number-injective job_ids b h = ground arith
hash_number-injective failures b h = ground arith

pub same_location : Location → Location → Bool
same_location (meta d) (meta e) = d == e
same_location (remaining d n) (remaining e m) = d == e && n == m
same_location (entry h d n) (entry k e m) =
    eqb (hash_number h) (hash_number k) && (d == e && n == m)
same_location _ _ = false

same_location_refl : (a : Location) → same_location a a ≡ true
unfolding same_location
same_location_refl (meta d) = eq_refl d
same_location_refl (remaining d n) = ground (arith, eq_refl d, eq_refl n)
same_location_refl (entry h d n) = ground (arith, eq_refl d, eq_refl n)

same_location-eq : (a b : Location) → same_location a b ≡ true → a ≡ b
unfolding same_location
same_location-eq (meta d) (meta e) h = ground (arith, eq_iff d e)
same_location-eq (remaining d n) (remaining e m) h = ground (arith, eq_iff d e, eq_iff n m)
same_location-eq (entry k d n) (entry l e m) h =
    ground (arith, eq_iff d e, eq_iff n m, hash_number-injective k l)
same_location-eq (meta d) b h = ground arith
same_location-eq (remaining d n) b h = ground arith
same_location-eq (entry k d n) b h = ground arith

abbrev pub Cells : Type 0
Cells = Location → Option Value

abbrev pub write : Cells → Location → Value → Cells
write s a v b = if same_location a b then some v else s b

-- DECR of a missing key counts from 0; at another type it is refused and changes nothing.
abbrev pub decrement : Cells → Location → Option Value → Cells × ℤ
decrement s a (some (number i)) = (write s a (number (pred i)), pred i)
decrement s a none = (write s a (number (pred (pos 0))), pred (pos 0))
decrement s a _ = (s, pos 0)

pub write_self : (s : Cells) (a : Location) (v : Value) → write s a v a ≡ some v
write_self s a v = rw (same_location_refl a)

pub write_ne : (s : Cells) (a b : Location) (v : Value) → a ≢ b → write s a v b ≡ s b
write_ne s a b v ne = elim (Bool-cases (same_location a b)) [
  | inl t ↦ absurd (ne (same_location-eq a b t))
  | inr f ↦ rw f
]

pub decrement-number :
    (s : Cells) (a : Location) (i : ℤ)
    → s a ≡ some (number i)
    → decrement s a (s a) ≡ (write s a (number (pred i)), pred i)
decrement-number s a i h = rw h

abbrev pub memory : Redis
memory = record {
  Store = Cells;
  get = λ s a. s a;
  set = write;
  decr = λ s a. decrement s a (s a);
  expire = λ s h dag seconds. s;
  get-set_self = write_self;
  get-set_ne = write_ne;
  decr_number = decrement-number;
  get-expire = λ s h dag seconds b. refl;
}

abbrev pub blank : Cells
blank a = none

-- What a test unfolds to look into the store.
unfoldable pub memory_runs : Unit {0}
unfolding same_location
memory_runs = tt
