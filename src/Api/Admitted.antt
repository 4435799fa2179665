-- ===== src/Api/Admitted.antt =====
-- The requests that the decorators admit, and what the handlers make of them.
use mathlib.Core.Option.{some-injective}
use ai_task_orchestrator.Base.Given.{Given, given, is_null, missing, to_option}
use ai_task_orchestrator.Base.{
  String, ap, ◌≤◌, ◌≡◌, ◌≢◌, refl, true, Option, none, some, length, ◌&&◌, ◌↔◌, inl, inr, arith,
  Option-cases, get_or,
}
use ai_task_orchestrator.Base.Json
use ai_task_orchestrator.Base.Json.{Json, Fields}
use ai_task_orchestrator.Api.{as_string, AreObjects, Validator, as_given}
use ai_task_orchestrator.Api.Bodies.{
  to_priority, as_priority, priorities, task_types, CreateTaskDto, CreateChainDto, ChainStepDto,
  DagNodeDto, CreateDagDto, to_task, to_step, to_chain, to_node, to_dag, check_task, check_step,
  check_chain, check_node, check_dag, optional, text_check, object_check, TriggerChaosDto,
  to_trigger, check_trigger,
}
use ai_task_orchestrator.Queue.{TaskPriority}
use ai_task_orchestrator.Tasks.{queued_priority, defaulted}
use ai_task_orchestrator.Api.Types.{
  split, text-Reads, object-Reads, list-Reads, given_priority-Reads, given_task_type-Reads,
  given_string-Reads, given_strings-Reads, given_number-Reads,
}

is_null-read : (x : Option Json) → as_given as_priority x ≡ some is_null → x ≡ some Json.null
is_null-read none e = absurd (cc)
is_null-read (some Json.null) e = refl
is_null-read (some (Json.str s)) e = elim (Option-cases (to_priority s)) [
  | inl k ↦ absurd (cc (rw k at e))
  | inr (p, k) ↦ absurd (cc (rw k at e))
]
is_null-read (some (Json.bool b)) e = absurd (cc)
is_null-read (some (Json.num n)) e = absurd (cc)
is_null-read (some (Json.arr js)) e = absurd (cc)
is_null-read (some (Json.obj o)) e = absurd (cc)

queued_priority-null :
    (x : Option Json) (p : Given TaskPriority)
    → as_given as_priority x ≡ some p
    → (queued_priority p ≡ none) ↔ (x ≡ some Json.null)
unfolding queued_priority defaulted
queued_priority-null x missing e = (λ k. cc, λ k. absurd (cc (rw k at e)))
queued_priority-null x is_null e = (λ _. is_null-read x e, λ _. refl)
queued_priority-null x (given p) e = (λ k. cc, λ k. absurd (cc (rw k at e)))

as_string-text : (x : Option Json) (s : String) → as_string x ≡ some s → x ≡ some (Json.str s)
as_string-text (some (Json.str t)) s e =
    ap (λ (w : String). some (Json.str w)) (some-injective t s e)
as_string-text none s e = absurd (cc)
as_string-text (some Json.null) s e = absurd (cc)
as_string-text (some (Json.bool b)) s e = absurd (cc)
as_string-text (some (Json.num n)) s e = absurd (cc)
as_string-text (some (Json.arr js)) s e = absurd (cc)
as_string-text (some (Json.obj o)) s e = absurd (cc)

module _ (v : Validator) where
  pub to_task-named :
      (body : Fields)
      → check_task v body ≡ true
      → (dto : CreateTaskDto) × (to_task body ≡ some dto)
        × (Json.get body "userId" ≡ some (Json.str dto.user_id))
        × (dto.user_id ≢ "")
        × ((queued_priority dto.priority ≡ none) ↔ (Json.get body "priority" ≡ some Json.null))
  unfolding check_task to_task
  to_task-named body h =
      let (a, h₁) = split (text_check v (Json.get body "userId")) _ h in
      let (b, h₂) = split (optional v (v.is_enum priorities) (Json.get body "priority")) _ h₁ in
      let (c, h₃) = split (optional v (v.is_enum task_types) (Json.get body "taskType")) _ h₂ in
      let (d, e) =
        split (optional v v.is_string (Json.get body "model"))
          (object_check v (Json.get body "payload")) h₃ in
      let (user, r₁, full) = text-Reads v (Json.get body "userId") a in
      let (p, r₂) = given_priority-Reads v (Json.get body "priority") b in
      let (t, r₃) = given_task_type-Reads v (Json.get body "taskType") c in
      let (m, r₄) = given_string-Reads v (Json.get body "model") d in
      let (o, r₅) = object-Reads v (Json.get body "payload") e in
      (
        record { user_id = user; priority = p; task_type = t; model = m; payload = o },
        rw (r₁, r₂, r₃, r₄, r₅) refl,
        as_string-text (Json.get body "userId") user r₁,
        full,
        queued_priority-null _ p r₂,
      )

  -- A task request that the decorators admit has the types that its class declares, but for `null` where
  -- a property may be left out; and the user's id is not empty. The job is queued without a priority if
  -- the priority is `null`, and only then.
  pub to_task-typed :
      (body : Fields)
      → check_task v body ≡ true
      → (dto : CreateTaskDto) × (to_task body ≡ some dto)
        × (dto.user_id ≢ "")
        × ((queued_priority dto.priority ≡ none) ↔ (Json.get body "priority" ≡ some Json.null))
  to_task-typed body h =
      let (dto, e, _, full, null_priority) = to_task-named body h in (dto, e, full, null_priority)

  to_step-typed : (o : Fields) → check_step v o ≡ true → (s : ChainStepDto) × (to_step o ≡ some s)
  unfolding check_step to_step
  to_step-typed o h =
      let (a, h₁) = split (text_check v (Json.get o "name")) _ h in
      let (c, h₂) = split (optional v (v.is_enum task_types) (Json.get o "taskType")) _ h₁ in
      let (d, e) =
        split (optional v v.is_string (Json.get o "model")) (object_check v (Json.get o "payload"))
          h₂ in
      let (name, r₁, _) = text-Reads v (Json.get o "name") a in
      let (t, r₂) = given_task_type-Reads v (Json.get o "taskType") c in
      let (m, r₃) = given_string-Reads v (Json.get o "model") d in
      let (payload, r₄) = object-Reads v (Json.get o "payload") e in
      (
        record { name = name; task_type = t; model = m; payload = payload },
        rw (r₁, r₂, r₃, r₄) refl,
      )

  to_node-typed : (o : Fields) → check_node v o ≡ true → (n : DagNodeDto) × (to_node o ≡ some n)
  unfolding check_node to_node
  to_node-typed o h =
      let (a, h₁) = split (text_check v (Json.get o "id")) _ h in
      let (b, h₂) =
        split (optional v (λ x. v.is_array x && v.is_strings x) (Json.get o "dependsOn")) _ h₁ in
      let (c, h₃) = split (optional v (v.is_enum task_types) (Json.get o "taskType")) _ h₂ in
      let (d, e) =
        split (optional v v.is_string (Json.get o "model")) (object_check v (Json.get o "payload"))
          h₃ in
      let (id, r₁, _) = text-Reads v (Json.get o "id") a in
      let (ds, r₂) = given_strings-Reads v (Json.get o "dependsOn") b in
      let (t, r₃) = given_task_type-Reads v (Json.get o "taskType") c in
      let (m, r₄) = given_string-Reads v (Json.get o "model") d in
      let (payload, r₅) = object-Reads v (Json.get o "payload") e in
      (
        record { id = id; depends_on = ds; task_type = t; model = m; payload = payload },
        rw (r₁, r₂, r₃, r₄, r₅) refl,
      )

  pub to_chain-typed :
      (body : Fields)
      → check_chain v body ≡ true
      → AreObjects (Json.get body "steps")
      → (dto : CreateChainDto) × (to_chain body ≡ some dto) × (2 ≤ length dto.steps)
  unfolding check_chain to_chain
  to_chain-typed body h objects =
      let (a, h₁) = split (text_check v (Json.get body "userId")) _ h in
      let (b, c) = split (optional v (v.is_enum priorities) (Json.get body "priority")) _ h₁ in
      let (user, r₁, _) = text-Reads v (Json.get body "userId") a in
      let (p, r₂) = given_priority-Reads v (Json.get body "priority") b in
      let (steps, r₃, long) =
        list-Reads v to_step (check_step v) 2 (Json.get body "steps") to_step-typed objects c in
      (record { user_id = user; priority = p; steps = steps }, rw (r₁, r₂, r₃) refl, long)

  pub to_dag-typed :
      (body : Fields)
      → check_dag v body ≡ true
      → AreObjects (Json.get body "nodes")
      → (dto : CreateDagDto) × (to_dag body ≡ some dto) × (1 ≤ length dto.nodes)
  unfolding check_dag to_dag
  to_dag-typed body h objects =
      let (a, h₁) = split (text_check v (Json.get body "userId")) _ h in
      let (b, c) = split (optional v (v.is_enum priorities) (Json.get body "priority")) _ h₁ in
      let (user, r₁, _) = text-Reads v (Json.get body "userId") a in
      let (p, r₂) = given_priority-Reads v (Json.get body "priority") b in
      let (nodes, r₃, long) =
        list-Reads v to_node (check_node v) 1 (Json.get body "nodes") to_node-typed objects c in
      (record { user_id = user; priority = p; nodes = nodes }, rw (r₁, r₂, r₃) refl, long)

  -- A body of numbers within the bounds of the decorators, or without numbers.
  pub to_trigger-typed :
      (body : Fields)
      → check_trigger v body ≡ true
      → (dto : TriggerChaosDto) × (to_trigger body ≡ some dto)
        × (1000 ≤ get_or (to_option dto.duration_ms) 15000)
        × (get_or (to_option dto.duration_ms) 15000 ≤ 120000)
        × (get_or (to_option dto.latency_ms) 35000 ≤ 120000)
  unfolding check_trigger to_trigger
  to_trigger-typed body h =
      let (a, b) =
        split
          (optional v (λ y. v.is_int y && (v.min 1000 y && v.max 120000 y))
            (Json.get body "durationMs"))
          _ h in
      let (d, r₁, d_range) = given_number-Reads v 1000 120000 (Json.get body "durationMs") a in
      let (l, r₂, l_range) = given_number-Reads v 0 120000 (Json.get body "latencyMs") b in
      let (d_least, d_most) = d_range 15000 (omega arith) (omega arith) in
      let (_, l_most) = l_range 35000 (omega arith) (omega arith) in
      (record { duration_ms = d; latency_ms = l }, rw (r₁, r₂) refl, d_least, d_most, l_most)
