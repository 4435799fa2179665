-- ===== src/Idempotency/Examples.antt =====
-- Instances of the theorems on idempotency, over a cache in memory.
use ai_task_orchestrator.Base.{
  String, true, false, ◌≡◌, refl, ◌≢◌, Option, none, some, ◌∷◌, ◌++◌, if◌then◌else◌, ◌==◌, eq_refl,
  is_some,
}
use ai_task_orchestrator.Base.Json.{Json}
use ai_task_orchestrator.Idempotency.{Cache, IdempotencyEntry, proceed, conflict, cached}
use ai_task_orchestrator.Idempotency.Requests.{repeat, session, session-answered, session-thrown}

abbrev Entries : Type 0
Entries = String → Option IdempotencyEntry

abbrev write_entry : Entries → String → IdempotencyEntry → Entries
write_entry s k e j = if j == k then some e else s j

abbrev entry_cache : Cache
entry_cache = record {
  Store = Entries;
  get = λ s k. s k;
  set = λ s k e ttl. write_entry s k e;
  set_nx = λ s k e ttl. if is_some (s k) then (s, false) else (write_entry s k e, true);
  get-set = λ s k e ttl. rw (eq_refl k) refl;
  set_nx-free = λ s k e ttl h. rw h refl;
  set_nx-taken = λ s k e old ttl h. rw h refl;
}

abbrev no_entries : Entries
no_entries k = none

fresh_key : ◌≢◌ {A = String} "k1" ""
fresh_key e = cc

answered_example :
    session entry_cache 86400 "k1" 2 3 (some (Json.str "ok")) no_entries
    ≡ (proceed ∷ repeat 2 conflict) ++ repeat 3 (cached (Json.str "ok"))
answered_example =
    session-answered entry_cache 86400 "k1" no_entries 2 3 (Json.str "ok") fresh_key refl

thrown_example :
    session entry_cache 86400 "k1" 2 3 none no_entries
    ≡ (proceed ∷ repeat 2 conflict) ++ repeat 3 conflict
thrown_example = session-thrown entry_cache 86400 "k1" no_entries 2 3 fresh_key refl
