-- ===== src/Api/Bodies.antt =====
-- apps/api/src/tasks/dto/create-task.dto.ts, apps/api/src/workflows/dto/create-chain.dto.ts and
-- create-dag.dto.ts, and apps/api/src/admin/dto/trigger-chaos.dto.ts: what the decorators check, and
-- what the classes say that a body is.
use ai_task_orchestrator.Base.Given.{Given}
use ai_task_orchestrator.Base.{
  ℕ, String, Bool, true, List, [], ◌∷◌, Option, none, some, if◌then◌else◌, ◌&&◌, ◌==◌,
}
use ai_task_orchestrator.Base.Json
use ai_task_orchestrator.Base.Json.{Json, Fields}
use ai_task_orchestrator.Queue.{
  TaskPriority, critical, high, normal, low, TaskType, simple, code, complex,
}
use ai_task_orchestrator.Api.{
  Validator, both, convert, as_string, as_fields, as_number, as_given, as_list,
}

abbrev pub priorities : List String
priorities = "critical" ∷ "high" ∷ "normal" ∷ "low" ∷ []

abbrev pub to_priority : String → Option TaskPriority
to_priority s =
    if "critical" == s
    then some critical
    else if "high" == s
    then some high
    else if "normal" == s
    then some normal
    else if "low" == s
    then some low
    else none

abbrev pub task_types : List String
task_types = "simple" ∷ "code" ∷ "complex" ∷ []

abbrev pub to_task_type : String → Option TaskType
to_task_type s =
    if "simple" == s
    then some simple
    else if "code" == s
    then some code
    else if "complex" == s
    then some complex
    else none

abbrev pub as_priority : Option Json → Option TaskPriority
as_priority (some (Json.str s)) = to_priority s
as_priority _ = none

abbrev pub as_task_type : Option Json → Option TaskType
as_task_type (some (Json.str s)) = to_task_type s
as_task_type _ = none

pub record CreateTaskDto : Type 0 where
  pub user_id : String
  pub priority : Given TaskPriority
  pub task_type : Given TaskType
  pub model : Given String
  pub payload : Fields

pub record ChainStepDto : Type 0 where
  pub name : String
  pub task_type : Given TaskType
  pub model : Given String
  pub payload : Fields

pub record CreateChainDto : Type 0 where
  pub user_id : String
  pub priority : Given TaskPriority
  pub steps : List ChainStepDto

pub record DagNodeDto : Type 0 where
  pub id : String
  pub depends_on : Given (List String)
  pub task_type : Given TaskType
  pub model : Given String
  pub payload : Fields

pub record CreateDagDto : Type 0 where
  pub user_id : String
  pub priority : Given TaskPriority
  pub nodes : List DagNodeDto

pub record TriggerChaosDto : Type 0 where
  pub duration_ms : Given ℕ
  pub latency_ms : Given ℕ

-- A body read at its class; `none` where a property has another type than the class declares.
unfoldable pub to_task : Fields → Option CreateTaskDto
to_task o =
    convert
      (λ (user, (priority, (task_type, (model, payload)))). record {
        user_id = user;
        priority = priority;
        task_type = task_type;
        model = model;
        payload = payload;
      })
      (both (as_string (Json.get o "userId")) (
        both (as_given as_priority (Json.get o "priority")) (
          both (as_given as_task_type (Json.get o "taskType"))
            (both (as_given as_string (Json.get o "model")) (as_fields (Json.get o "payload"))))))

unfoldable pub to_step : Fields → Option ChainStepDto
to_step o =
    convert
      (λ (name, (task_type, (model, payload))). record {
        name = name;
        task_type = task_type;
        model = model;
        payload = payload;
      })
      (both (as_string (Json.get o "name")) (
        both (as_given as_task_type (Json.get o "taskType"))
          (both (as_given as_string (Json.get o "model")) (as_fields (Json.get o "payload")))))

abbrev pub object_of : {A : Type 0} → (Fields → Option A) → Json → Option A
object_of read (Json.obj o) = read o
object_of read _ = none

unfoldable pub to_chain : Fields → Option CreateChainDto
unfolding to_step
to_chain o =
    convert
      (λ (user, (priority, steps)). record { user_id = user; priority = priority; steps = steps })
      (both (as_string (Json.get o "userId")) (
        both (as_given as_priority (Json.get o "priority"))
          (as_list (object_of to_step) (Json.get o "steps"))))

unfoldable pub to_node : Fields → Option DagNodeDto
to_node o =
    convert
      (λ (id, (depends_on, (task_type, (model, payload)))). record {
        id = id;
        depends_on = depends_on;
        task_type = task_type;
        model = model;
        payload = payload;
      })
      (both (as_string (Json.get o "id")) (
        both (as_given (as_list (λ j. as_string (some j))) (Json.get o "dependsOn")) (
          both (as_given as_task_type (Json.get o "taskType"))
            (both (as_given as_string (Json.get o "model")) (as_fields (Json.get o "payload"))))))

unfoldable pub to_dag : Fields → Option CreateDagDto
unfolding to_node
to_dag o =
    convert
      (λ (user, (priority, nodes)). record { user_id = user; priority = priority; nodes = nodes })
      (both (as_string (Json.get o "userId")) (
        both (as_given as_priority (Json.get o "priority"))
          (as_list (object_of to_node) (Json.get o "nodes"))))

unfoldable pub to_trigger : Fields → Option TriggerChaosDto
to_trigger o =
    convert (λ (duration, latency). record { duration_ms = duration; latency_ms = latency })
      (both (as_given as_number (Json.get o "durationMs"))
        (as_given as_number (Json.get o "latencyMs")))

-- The decorators of each class.
module _ (v : Validator) where
  open v use {
    is_not_empty, is_string, is_object, is_int, is_array, is_strings, is_enum, min, max,
    array_min_size, validate_nested, is_optional,
  }

  abbrev pub text_check : Option Json → Bool
  text_check x = is_not_empty x && is_string x

  abbrev pub object_check : Option Json → Bool
  object_check x = is_not_empty x && is_object x

  abbrev pub optional : (Option Json → Bool) → Option Json → Bool
  optional check x = if is_optional x then true else check x

  unfoldable pub check_task : Fields → Bool
  check_task o =
      text_check (Json.get o "userId")
      && (optional (is_enum priorities) (Json.get o "priority")
          && (optional (is_enum task_types) (Json.get o "taskType")
              && (optional is_string (Json.get o "model") && object_check (Json.get o "payload"))))

  unfoldable pub check_step : Fields → Bool
  check_step o =
      text_check (Json.get o "name")
      && (optional (is_enum task_types) (Json.get o "taskType")
          && (optional is_string (Json.get o "model") && object_check (Json.get o "payload")))

  abbrev pub check_list : ℕ → (Fields → Bool) → Option Json → Bool
  check_list least check x = is_array x && (array_min_size least x && validate_nested check x)

  unfoldable pub check_chain : Fields → Bool
  unfolding check_step
  check_chain o =
      text_check (Json.get o "userId")
      && (optional (is_enum priorities) (Json.get o "priority")
          && check_list 2 check_step (Json.get o "steps"))

  unfoldable pub check_node : Fields → Bool
  check_node o =
      text_check (Json.get o "id")
      && (optional (λ x. is_array x && is_strings x) (Json.get o "dependsOn")
          && (optional (is_enum task_types) (Json.get o "taskType")
              && (optional is_string (Json.get o "model") && object_check (Json.get o "payload"))))

  unfoldable pub check_dag : Fields → Bool
  unfolding check_node
  check_dag o =
      text_check (Json.get o "userId")
      && (optional (is_enum priorities) (Json.get o "priority")
          && check_list 1 check_node (Json.get o "nodes"))

  unfoldable pub check_trigger : Fields → Bool
  check_trigger o =
      optional (λ x. is_int x && (min 1000 x && max 120000 x)) (Json.get o "durationMs")
      && optional (λ x. is_int x && (min 0 x && max 120000 x)) (Json.get o "latencyMs")
