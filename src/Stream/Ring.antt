-- ===== src/Stream/Ring.antt =====
-- What the ring buffer holds after any sequence of events.
use mathlib.Core.List.{append-nil, append_assoc}
use ai_task_orchestrator.Base.{
  ℕ, zero, suc, ◌-◌, ◌≤◌, ◌≡◌, refl, sym, ◌∙◌, ap, inl, inr, List, [], ◌∷◌, ◌++◌, length, drop, ltb,
  arith, length-append, length-drop, drop-snoc, Bool-cases,
}
use ai_task_orchestrator.Stream.{TaskFlowEvent, ring_size, shift, record_event, record_events}

-- The newest `n` events.
abbrev pub newest : ℕ → List TaskFlowEvent → List TaskFlowEvent
newest n es = drop (length es - n) es

pub same_drop : {m n : ℕ} (es : List TaskFlowEvent) → m ≡ n → drop m es ≡ drop n es
same_drop es h = ap (λ k. drop k es) h

shift-drop : (n : ℕ) (es : List TaskFlowEvent) → shift (drop n es) ≡ drop (suc n) es
shift-drop zero [] = refl
shift-drop zero (e ∷ es) = refl
shift-drop (suc n) [] = refl
shift-drop (suc n) (e ∷ es) = shift-drop n es

record_event_lem :
    (before : List TaskFlowEvent) (e : TaskFlowEvent)
    → record_event (newest ring_size before) e ≡ newest ring_size (before ++ e ∷ [])
record_event_lem before e =
    let k = length before - 50 in
    let grown = length-append before (e ∷ []) in
    let snoc = drop-snoc k before e (omega arith) in
    let size = ap length snoc in
    let size' = length-drop k (before ++ e ∷ []) in
    unfold record_event in
    elim (Bool-cases (ltb 50 (length (drop k before ++ e ∷ [])))) [
      | inl full ↦
          rw (full, sym snoc, shift-drop k (before ++ e ∷ []))
            (same_drop {m = suc k} (before ++ e ∷ []) (ground (arith, grown, size, size')))
      | inr room ↦
          rw (room, sym snoc)
            (same_drop {m = k} (before ++ e ∷ []) (ground (arith, grown, size, size')))
    ]

record_events_lem :
    (before es : List TaskFlowEvent)
    → record_events (newest ring_size before) es ≡ newest ring_size (before ++ es)
unfolding record_events
record_events_lem before [] = ap (newest ring_size) (sym (append-nil before))
record_events_lem before (e ∷ es) = rw (record_event_lem before e) (
    record_events_lem (before ++ e ∷ []) es
    ∙ ap (newest ring_size) (append_assoc before (e ∷ []) es))

-- The buffer never holds more than 50 events: from the empty one, after any events, it holds
-- exactly the newest 50 of them, or all while there are at most 50, in their order.
pub record_events-newest : (es : List TaskFlowEvent) → record_events [] es ≡ newest ring_size es
record_events-newest es = record_events_lem [] es

pub record_events-length : (es : List TaskFlowEvent) → length (record_events [] es) ≤ ring_size
record_events-length es =
    rw (record_events-newest es) (omega (arith, length-drop (length es - 50) es))
