-- ===== src/Stream/Cursor.antt =====
-- What a client of the stream gets, tick by tick.
use ai_task_orchestrator.Base.{
  ℕ, ◌-◌, ◌≤◌, ◌<◌, ◌≡◌, refl, true, List, [], ◌∷◌, ◌++◌, map, length, drop-append, ltb, arith,
  length-drop,
}
use ai_task_orchestrator.Stream.{TaskFlowEvent, ring_size, record_events, tick, snapshot, flow}
use ai_task_orchestrator.Stream.Ring.{record_events-newest, newest, same_drop}

newest-all : (n : ℕ) (es : List TaskFlowEvent) → length es ≤ n → newest n es ≡ es
newest-all n es h = same_drop {n = 0} es (omega arith)

full_length :
    (es : List TaskFlowEvent) → ring_size ≤ length es → length (record_events [] es) ≡ ring_size
full_length es h = rw (record_events-newest es) (omega (arith, length-drop (length es - 50) es))

-- While the events are at most 50 in all and one is new, a tick sends exactly the events after
-- those the client has seen, behind a snapshot, and moves the cursor behind them.
pub tick-fresh :
    {Snapshot : Type 0} (now : Snapshot) (seen more : List TaskFlowEvent)
    → length (seen ++ more) ≤ ring_size
    → length seen < length (seen ++ more)
    → tick now (record_events [] (seen ++ more)) (length seen)
      ≡ (length (seen ++ more), snapshot now ∷ map flow more)
tick-fresh now seen more h new =
    let test : ltb (length seen) (length (seen ++ more)) ≡ true = ground arith in
    unfold tick in
    rw
      (
        record_events-newest (seen ++ more),
        newest-all 50 (seen ++ more) h,
        test,
        drop-append seen more,
      )
      refl

-- Once a client's cursor is 50, it is never sent another event: from the fiftieth event on,
-- whatever has happened since, a tick sends the snapshot alone and leaves the cursor at 50.
pub tick-stalls :
    {Snapshot : Type 0} (now : Snapshot) (es : List TaskFlowEvent)
    → ring_size ≤ length es
    → tick now (record_events [] es) ring_size ≡ (ring_size, snapshot now ∷ [])
tick-stalls now es h = unfold tick in rw (full_length es h) refl
