-- ===== src/AdminGuard/Examples.antt =====
-- A token in the header, where a buffer is the text itself.
use ai_task_orchestrator.Base.{◌≡◌, ◌≢◌, ◌↔◌, String, true, some, ◌==◌, eq_iff}
use ai_task_orchestrator.Base.Result.{ok}
use ai_task_orchestrator.AdminGuard.{Node, can_activate, can_activate-admits}

abbrev texts : Node
texts = record {
  Buffer = String;
  from = λ s. s;
  byte_length = λ s. 0;
  timing_safe_equal = λ a b. a == b;
  from-injective = λ s t h. h;
  timing_safe_equal_iff = λ a b h. eq_iff a b;
}

can_activate-admits_example : (can_activate texts (some "secret") (some "secret") ≡ ok true) ↔ (
    (token : String) × (token ≢ "") × (some "secret" ≡ some token) × (some "secret" ≡ some token))
can_activate-admits_example = can_activate-admits texts (some "secret") (some "secret")
