-- ===== src/Worker/Failures.antt =====
-- The attempts of one job, from its first failure to the dead letter queue.
use ai_task_orchestrator.Base.{
  ℕ, ◌+◌, ◌<◌, ◌≡◌, refl, String, Bool, true, false, List, [], ◌∷◌, ◌++◌, Option, leb,
  if◌then◌else◌, arith, length, get_or,
}
use ai_task_orchestrator.Jobs.{JobData, Effect, add_dead_letter}
use ai_task_orchestrator.Workflow.Store.{Redis}
use ai_task_orchestrator.Worker.{FailedJob, Counters, on_failed, mark_node_failed, dag_of}

module _ (r : Redis) (timed_out : String → Bool) (now : String) (id : String) (j : JobData)
    (attempts : Option ℕ) where
  open r use {Store}

  -- The `failed` events of the job: each reason comes with one attempt more than the one before.
  unfoldable pub fail_run : ℕ → Store × Counters → List String → (Store × Counters) × List Effect
  fail_run made st [] = (st, [])
  fail_run made st (reason ∷ reasons) =
      let job : FailedJob = record {
        id = id;
        job = j;
        attempts = attempts;
        attempts_made = made + 1;
      } in
      let (st', effects) = on_failed r timed_out now st job reason in
      let (st'', later) = fail_run (made + 1) st' reasons in (st'', effects ++ later)

  abbrev pub letter : String → Effect
  letter reason =
      add_dead_letter
        (record { job = j; original_job_id = id; failed_reason = reason; failed_at = now })

  -- The counters after a failure that is not the last one.
  abbrev counted : Counters → String → Counters
  counted c reason = record c {
    task_failed = c.task_failed + 1;
    task_timeout = c.task_timeout + (if timed_out reason then 1 else 0);
  }

  early_lem :
      (made : ℕ) (s : Store) (c : Counters) (reason : String) (reasons : List String)
      → made + 1 < get_or attempts 1
      → fail_run made (s, c) (reason ∷ reasons) ≡ fail_run (made + 1) (s, counted c reason) reasons
  unfolding fail_run on_failed
  early_lem made s c reason reasons h =
      let below : leb (get_or attempts 1) (made + 1) ≡ false = ground arith in rw below refl

  -- A job whose `attempts` allow one failure more than `reasons` adds exactly one dead letter over
  -- these failures: at the last one, with its reason. Only then its node is marked as failed. All
  -- failures count as such, and one as a dead letter.
  pub fail_run_lem :
      (made : ℕ) (s : Store) (c : Counters) (reasons : List String) (last : String)
      → made + length reasons + 1 ≡ get_or attempts 1
      → ((fail_run made (s, c) (reasons ++ last ∷ [])).1 ≡ letter last ∷ [])
        × ((fail_run made (s, c) (reasons ++ last ∷ [])).0.0 ≡ mark_node_failed r s (dag_of j) last)
        × ((fail_run made (s, c) (reasons ++ last ∷ [])).0.1.task_failed
            ≡ c.task_failed + length reasons + 1)
        × ((fail_run made (s, c) (reasons ++ last ∷ [])).0.1.task_dlq ≡ c.task_dlq + 1)
  fail_run_lem made s c [] last h =
      let reached : leb (get_or attempts 1) (made + 1) ≡ true = ground arith in
      unfold fail_run on_failed in rw reached (refl, refl, omega arith, refl)
  fail_run_lem made s c (reason ∷ reasons) last h =
      let ih = fail_run_lem (made + 1) s (counted c reason) reasons last (omega arith) in
      rw (early_lem made s c reason (reasons ++ last ∷ []) (omega arith))
        (ih.0, ih.1, omega (arith, ih.2), ih.3)

  -- As long as the failures are fewer than `attempts`, nothing is added to the dead letter queue,
  -- the store stays as it is, and only the failure counters advance.
  pub fail_run-early :
      (made : ℕ) (s : Store) (c : Counters) (reasons : List String)
      → made + length reasons < get_or attempts 1
      → ((fail_run made (s, c) reasons).1 ≡ [])
        × ((fail_run made (s, c) reasons).0.0 ≡ s)
        × ((fail_run made (s, c) reasons).0.1.task_failed ≡ c.task_failed + length reasons)
        × ((fail_run made (s, c) reasons).0.1.task_dlq ≡ c.task_dlq)
  fail_run-early made s c [] h = unfold fail_run in (refl, refl, omega arith, refl)
  fail_run-early made s c (reason ∷ reasons) h =
      let ih = fail_run-early (made + 1) s (counted c reason) reasons (omega arith) in
      rw (early_lem made s c reason reasons (omega arith)) (ih.0, ih.1, omega (arith, ih.2), ih.3)
