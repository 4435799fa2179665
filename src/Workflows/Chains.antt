-- ===== src/Workflows/Chains.antt =====
-- The order of the steps of a chain.
use mathlib.Core.List.{append-nil, append_assoc}
use mathlib.Core.Option.{some-injective}
use ai_task_orchestrator.Base.{
  String, Option, Option-cases, ℕ, suc, ◌≡◌, refl, sym, ◌∙◌, ap, List, [], ◌∷◌, ◌++◌, map, some,
  length, length-append, arith, inl, inr, ◌⊎◌,
}
use ai_task_orchestrator.Jobs.{JobData}
use ai_task_orchestrator.Workflows.{
  Chain, Step, FlowJob, leaf, parent, step_data, step_options, build_node, create_chain, JobReport,
  step_status, step_statuses, find_workflow, reverse, WorkflowMeta,
}

-- The jobs of a tree in the order in which they run: the child before its parent.
abbrev pub run_order : FlowJob → List JobData
run_order (leaf queue j o) = j ∷ []
run_order (parent queue j o child) = run_order child ++ j ∷ []

-- The steps' jobs, the first with the given index.
abbrev pub jobs_from : Chain → ℕ → List Step → List JobData
jobs_from c index [] = []
jobs_from c index (s ∷ ss) = step_data c index s ∷ jobs_from c (suc index) ss

jobs_down : Chain → List Step → List JobData
jobs_down c [] = []
jobs_down c (s ∷ before) = jobs_down c before ++ step_data c (length before) s ∷ []

built :
    (c : Chain) (steps : List Step)
    → (steps ≡ [])
      ⊎ ((tree : FlowJob) × (build_node c steps ≡ some tree) × (run_order tree ≡ jobs_down c steps))
unfolding build_node jobs_down step_data
built c [] = inl refl
built c (s ∷ []) = inr (leaf _ _ (step_options c s), refl, refl)
built c (s ∷ x ∷ before) = elim (built c (x ∷ before)) [
  | inl e ↦ absurd (omega (arith, ap length e))
  | inr (child, e, same) ↦ inr (
      rw e (
        parent _ _ (step_options c s) child,
        refl,
        ap (λ l. l ++ step_data c (length (x ∷ before)) s ∷ []) same,
      ))
]

jobs_down-reverse :
    (c : Chain) (steps before : List Step)
    → jobs_down c (reverse steps ++ before)
      ≡ jobs_down c before ++ jobs_from c (length before) steps
unfolding jobs_down
jobs_down-reverse c [] before = sym (append-nil (jobs_down c before))
jobs_down-reverse c (s ∷ ss) before =
    ap (jobs_down c) (append_assoc (reverse ss) (s ∷ []) before)
    ∙ jobs_down-reverse c ss (s ∷ before)
    ∙ append_assoc (jobs_down c before) (step_data c (length before) s ∷ [])
        (jobs_from c (suc (length before)) ss)

jobs_from-ids :
    (c : Chain) (index : ℕ) (steps : List Step)
    → map (λ (s : Step). s.job_id) steps ≡ map (λ (j : JobData). j.id) (jobs_from c index steps)
unfolding step_data
jobs_from-ids c index [] = refl
jobs_from-ids c index (s ∷ ss) = ap (λ l. s.job_id ∷ l) (jobs_from-ids c (suc index) ss)

-- A chain of at least one step is created. Its jobs run in the order of the steps, each of them
-- once, with the data and the index of its step; and the description lists their ids in this order.
pub create_chain-order :
    (c : Chain) (first : Step) (rest : List Step)
    → (tree : FlowJob) × (m : WorkflowMeta) × (create_chain c (first ∷ rest) ≡ some (tree, m))
      × (run_order tree ≡ jobs_from c 0 (first ∷ rest))
      × (m.step_job_ids ≡ map (λ (j : JobData). j.id) (run_order tree))
unfolding jobs_down create_chain step_data
create_chain-order c first rest =
    let steps = first ∷ rest in
    elim (built c (reverse steps)) [
      | inl e ↦ absurd (omega (arith, length-append (reverse rest) (first ∷ []), ap length e))
      | inr (tree, e, same) ↦
          let order : run_order tree ≡ jobs_from c 0 steps =
            same
            ∙ ap (jobs_down c) (sym (append-nil (reverse steps)))
            ∙ jobs_down-reverse c steps [] in
          rw (e, create_chain)
            (
              tree,
              _,
              refl,
              order,
              jobs_from-ids c 0 steps ∙ ap (map (λ (j : JobData). j.id)) (sym order),
            )
    ]

step_statuses-steps :
    (report : String → Option JobReport) (steps : List Step)
    → step_statuses report (map (λ (s : Step). s.job_id) steps) (map (λ (s : Step). s.name) steps)
      ≡ map (λ (s : Step). step_status s.job_id (some s.name) (report s.job_id)) steps
unfolding step_statuses
step_statuses-steps report [] = refl
step_statuses-steps report (s ∷ ss) =
    ap (λ l. step_status s.job_id (some s.name) (report s.job_id) ∷ l)
      (step_statuses-steps report ss)

-- The description that the creation of a chain stores gives, when it is looked up, one status for
-- each step, in the order of the steps: its name, its job and what the queue says of this job.
pub find_workflow-create_chain :
    (c : Chain) (steps : List Step) (report : String → Option JobReport) (tree : FlowJob)
    (m : WorkflowMeta)
    → create_chain c steps ≡ some (tree, m)
    → find_workflow report (some m)
      ≡ some (m, map (λ (s : Step). step_status s.job_id (some s.name) (report s.job_id)) steps)
unfolding create_chain find_workflow
find_workflow-create_chain c steps report tree m h =
    elim (Option-cases (build_node c (reverse steps))) [
      | inl e ↦ absurd (cc (rw (e, create_chain) at h))
      | inr (t, e) ↦
          let same =
            ap (λ (p : FlowJob × WorkflowMeta). p.1)
              (some-injective _ _ (rw (e, create_chain) at h)) in
          ap (λ l. some (m, l))
            (ap (λ (d : WorkflowMeta). step_statuses report d.step_job_ids d.step_names) (sym same)
              ∙ step_statuses-steps report steps)
    ]
