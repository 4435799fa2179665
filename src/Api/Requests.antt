-- ===== src/Api/Requests.antt =====
-- The answers of the handlers to bodies that the decorators admit.
use ai_task_orchestrator.Base.Given.{to_option}
use ai_task_orchestrator.Base.{
  none, ap, sym, ◌∙◌, ℕ, ◌+◌, ◌≤◌, ◌≡◌, ◌≢◌, refl, String, true, List, [], ◌∷◌, Option, some,
  length, ◌⊎◌, ◌↔◌, inl, inr, arith, map, get_or, subst,
}
use ai_task_orchestrator.Base.Json
use ai_task_orchestrator.Base.Json.{Json, Fields}
use ai_task_orchestrator.Base.Result.{ok, err, Result-cases}
use ai_task_orchestrator.Queue.{TaskPriority, Task, get_user_queue_name}
use ai_task_orchestrator.Jobs.{Effect, add, JobData, JobOptions, JobState}
use ai_task_orchestrator.Tasks.{or_normal, create, find_one, state_map}
use ai_task_orchestrator.Tasks.Retry.{stored, find_one-create, create-adds}
use ai_task_orchestrator.Workflow.{DagNodeInput, DagMeta}
use ai_task_orchestrator.Workflow.Store.{Redis}
use ai_task_orchestrator.Workflow.Sort.{DagValidationError, no_nodes, topological_layers}
use ai_task_orchestrator.Workflow.Sort.Outcome.{Explains}
use ai_task_orchestrator.Workflow.Sort.Correct.{topological_layers-Explains}
use ai_task_orchestrator.Workflows.{FlowJob, WorkflowMeta, create_dag, bad_request, normalise}
use ai_task_orchestrator.Workflows.Chains.{create_chain-order}
use ai_task_orchestrator.Workflows.Lifecycle.{create_dag-accepts}
use ai_task_orchestrator.Chaos.{
  ChaosAction, ChaosDirective, trigger, latency_of, default_latency_ms, kill_worker, pause_redis,
  inject_latency,
}
use ai_task_orchestrator.Api.{AreObjects, Validator}
use ai_task_orchestrator.Api.Bodies.{
  CreateTaskDto, to_task, DagNodeDto, CreateDagDto, to_dag, check_task, check_chain, check_dag,
  check_trigger,
}
use ai_task_orchestrator.Api.Handlers.{
  dag_error, steps_of, input_of, to_action, create_task_request, create_chain_request,
  create_dag_request, trigger_request,
}
use ai_task_orchestrator.Api.Admitted.{
  to_task-named, to_chain-typed, to_dag-typed, to_trigger-typed,
}

nonempty : {A : Type 0} (l : List A) → 1 ≤ length l → (x : A) × (rest : List A) × (l ≡ x ∷ rest)
nonempty [] h = absurd (omega (arith, h))
nonempty (x ∷ rest) h = (x, rest, refl)

latency_small :
    (action : ChaosAction) (l : Option ℕ)
    → get_or l default_latency_ms ≤ 120000
    → get_or (latency_of action l) 0 ≤ 120000
latency_small inject_latency l h = h
latency_small kill_worker l h = omega arith
latency_small pause_redis l h = omega arith

refused :
    (r : Redis) (uuid : DagNodeInput → String) (dag now user : String) (p : Option TaskPriority)
    (s : r.Store) (ns : List DagNodeInput) (e : DagValidationError)
    → topological_layers (normalise ns) ≡ err e
    → create_dag r uuid dag now user p s ns ≡ err (bad_request e)
unfolding create_dag
refused r uuid dag now user p s ns e h = rw (h, create_dag) refl

filled : (l : List DagNodeDto) → 1 ≤ length l → normalise (map input_of l) ≢ []
filled [] h = λ _. omega (arith, h)
filled (n ∷ ns) h = λ k. cc

module _ (v : Validator) where
  requested :
      (id now : String) (body : Fields) (dto : CreateTaskDto)
      → check_task v body ≡ true
      → to_task body ≡ some dto
      → create_task_request v id now body
        ≡ ok (
            create id now dto.user_id dto.payload dto.priority
              (to_option dto.model)
              (to_option dto.task_type))
  unfolding create_task_request
  requested id now body dto h e = rw (h, e) refl

  -- A task request that the decorators admit adds one job, to the queue of its user, who has a name. The
  -- job has no priority exactly if the body's is null. A task that is looked up then has the status of
  -- its job; it is the task of the answer but for its model and task type, which are missing, and for a
  -- priority of null, which has become the normal one.
  pub create_task_request-found :
      (id now : String) (body : Fields) (st : JobState)
      → check_task v body ≡ true
      → (user : String) × (j : JobData) × (o : JobOptions) × (task : Task) × (create_task_request v
            id now body
          ≡ ok (add (get_user_queue_name user) j o ∷ [], task))
        × (Json.get body "userId" ≡ some (Json.str user))
        × (user ≢ "")
        × ((o.priority ≡ none) ↔ (Json.get body "priority" ≡ some Json.null))
        × (find_one id (some (record { job = j; job_id = o.job_id; state = st }))
            ≡ ok (record task {
              priority = some (or_normal task.priority);
              status = state_map st;
              model = none;
              task_type = none;
            }))
  create_task_request-found id now body st h =
      let (dto, e, named, full, null_priority) = to_task-named v body h in
      let model = to_option dto.model in
      let task_type = to_option dto.task_type in
      let (j, o, added, queued) =
        create-adds id now dto.user_id dto.payload dto.priority model task_type in
      let made = create id now dto.user_id dto.payload dto.priority model task_type in
      (
        dto.user_id,
        j,
        o,
        made.1,
        requested id now body dto h e ∙ ap (λ (l : List Effect). ok (l, made.1)) added,
        named,
        full,
        (λ k. null_priority.0 (sym queued ∙ k), λ k. queued ∙ null_priority.1 k),
        ap (λ l. find_one id (stored l st)) (sym added)
            ∙ find_one-create id now dto.user_id dto.payload dto.priority model task_type st,
      )

  -- A chain request that the decorators admit, and whose steps are all objects, is answered with a tree of
  -- jobs: it has a step, without which `buildNode` would throw.
  pub create_chain_request-answered :
      (uuid : ℕ → String) (workflow_id now : String) (body : Fields)
      → check_chain v body ≡ true
      → AreObjects (Json.get body "steps")
      → (tree : FlowJob) × (m : WorkflowMeta) × (create_chain_request v uuid workflow_id now body
          ≡ ok (tree, m))
  unfolding create_chain_request
  create_chain_request-answered uuid workflow_id now body h objects =
      let (dto, e, long) = to_chain-typed v body h objects in
      let (s, ss, k) = nonempty dto.steps (omega (arith, long)) in
      let (tree, m, made, order, listed) =
        create_chain-order
          (record {
            workflow_id = workflow_id;
            user_id = dto.user_id;
            priority = or_normal (to_option dto.priority);
            created_at = now;
          })
          (record {
            job_id = uuid 0;
            name = s.name;
            payload = s.payload;
            task_type = to_option s.task_type;
            model = to_option s.model;
          })
          (steps_of uuid 1 ss) in
      (tree, m, rw (h, e, k, made) refl)

  -- A chaos request of admitted numbers and a known action is answered with a directive whose window
  -- lasts for 1 to 120 seconds, and whose latency is at most 120 seconds. Redis keeps it 2 seconds
  -- longer.
  pub trigger_request-bounded :
      (now : ℕ) (name : String) (action : ChaosAction) (body : Fields)
      → check_trigger v body ≡ true
      → to_action name ≡ some action
      → (d : ChaosDirective) × (ttl : ℕ) × (trigger_request v now name body ≡ ok (d, ttl))
        × (d.action ≡ action)
        × (now + 1000 ≤ d.until)
        × (d.until ≤ now + 120000)
        × (get_or d.latency_ms 0 ≤ 120000)
        × (now + ttl ≡ d.until + 2000)
  unfolding trigger_request trigger
  trigger_request-bounded now name action body h known =
      let (dto, e, least, most, latency) = to_trigger-typed v body h in
      let (d, ttl) = trigger now action (to_option dto.duration_ms) (to_option dto.latency_ms) in
      (
        d,
        ttl,
        rw (h, known, e) refl,
        refl,
        omega (arith, least),
        omega (arith, most),
        latency_small action (to_option dto.latency_ms) latency,
        omega arith,
      )

  -- Take a DAG request that the decorators admit, and whose nodes are all objects. It is answered with the
  -- DAG, or with an error of `topologicalLayers` that says the truth of the nodes and is not the one
  -- for an empty list.
  pub create_dag_request-answered :
      (r : Redis) (uuid : DagNodeInput → String) (dag now : String) (s : r.Store) (body : Fields)
      → check_dag v body ≡ true
      → AreObjects (Json.get body "nodes")
      → (dto : CreateDagDto) × (to_dag body ≡ some dto)
        × (((t : r.Store) × (first : List Effect) × (m : DagMeta) × (create_dag_request r v uuid dag
                  now s body
                ≡ ok ((t, first), m)))
            ⊎ ((e : DagValidationError) × (create_dag_request r v uuid dag now s body
                  ≡ err (dag_error (bad_request e)))
                × Explains (normalise (map input_of dto.nodes)) e
                × (e ≢ no_nodes)))
  unfolding create_dag_request
  create_dag_request-answered r uuid dag now s body h objects =
      let (dto, e, long) = to_dag-typed v body h objects in
      let ns = map input_of dto.nodes in
      (
        dto,
        e,
        elim (Result-cases (topological_layers (normalise ns))) [
          | inl (layers, k) ↦
              let (t, first, m, made) =
                create_dag-accepts r uuid dag now dto.user_id (to_option dto.priority) s ns layers
                  k in
              inl (t, first, m, rw (h, e, made) refl)
          | inr (why, k) ↦
              let truth = topological_layers-Explains (normalise ns) why k in
              inr (
                why,
                rw (h, e, refused r uuid dag now dto.user_id (to_option dto.priority) s ns why k)
                    refl,
                truth,
                λ is. filled dto.nodes long (subst (Explains (normalise ns)) is truth),
              )
        ],
      )
