-- ===== src/Tasks.antt =====
-- apps/api/src/tasks/tasks.service.ts and guards/backpressure.guard.ts. Fresh ids and the clock are
-- arguments.
pub mod Retry
mod Examples
use ai_task_orchestrator.Base.{
  ℕ, ◌+◌, ◌*◌, String, Bool, true, false, List, [], ◌∷◌, map, Option, none, some, get_or, leb,
  if◌then◌else◌, ◌==◌,
}
use ai_task_orchestrator.Base.Given.{Given, missing, is_null, given}
use ai_task_orchestrator.Base.Json.{Fields}
use ai_task_orchestrator.Base.Result.{Result, ok, err}
use ai_task_orchestrator.Queue.{
  Task, TaskStatus, TaskPriority, TaskType, priority_map, get_user_queue_name,
}
use ai_task_orchestrator.Queue
use ai_task_orchestrator.Jobs.{
  JobData, JobOptions, DeadLetter, Effect, add, remove_dead_letter, default_attempts, JobState,
}
use ai_task_orchestrator.Jobs

-- STATE_MAP, and PENDING where it has no entry.
unfoldable pub state_map : JobState → TaskStatus
state_map JobState.active = TaskStatus.active
state_map JobState.completed = TaskStatus.completed
state_map JobState.failed = TaskStatus.failed
state_map _ = TaskStatus.pending

pub data TaskError : Type 0 where
  task_not_found dlq_job_not_found : (id : String) → TaskError

-- `priority ?? TaskPriority.NORMAL`
abbrev pub or_normal : Option TaskPriority → TaskPriority
or_normal p = get_or p TaskPriority.normal

-- The default of the parameter `priority`, which is for `undefined` only: null stays null, here `none`.
unfoldable pub defaulted : Given TaskPriority → Option TaskPriority
defaulted missing = some TaskPriority.normal
defaulted is_null = none
defaulted (given p) = some p

-- `PRIORITY_MAP[priority]`, `undefined` at null.
abbrev pub mapped : Option TaskPriority → Option ℕ
mapped none = none
mapped (some p) = some (priority_map p)

unfoldable pub queued_priority : Given TaskPriority → Option ℕ
unfolding defaulted
queued_priority p = mapped (defaulted p)

unfoldable pub create :
    (id created_at user_id : String)
    → Fields
    → Given TaskPriority
    → Option String
    → Option TaskType
    → List Effect × Task
unfolding defaulted queued_priority
create id created_at user_id payload priority model task_type = (
  add (get_user_queue_name user_id)
        (record {
          id = id;
          user_id = user_id;
          priority = defaulted priority;
          task_type = task_type;
          model = model;
          payload = payload;
          created_at = created_at;
          dag_id = none;
          dag_node_id = none;
          workflow_id = none;
          step_name = none;
          step_index = none;
        })
        (record { job_id = id; priority = queued_priority priority; attempts = default_attempts })
      ∷ [],
  record {
    id = id;
    user_id = user_id;
    priority = defaulted priority;
    status = TaskStatus.pending;
    task_type = task_type;
    model = model;
    token_usage = none;
    cost = none;
    payload = payload;
    created_at = created_at;
  },
)

-- A job as the queue of the user answers it.
pub record FoundJob : Type 0 where
  pub job : JobData
  pub job_id : String
  pub state : JobState

unfoldable pub find_one : String → Option FoundJob → Result TaskError Task
unfolding state_map
find_one id none = err (task_not_found id)
find_one id (some f) = ok (record {
  id = f.job_id;
  user_id = f.job.user_id;
  priority = some (or_normal f.job.priority);
  status = state_map f.state;
  task_type = none;
  model = none;
  token_usage = none;
  cost = none;
  payload = f.job.payload;
  created_at = f.job.created_at;
})

abbrev pub get_queue_depth : (waiting active : ℕ) → ℕ
get_queue_depth waiting active = waiting + active

pub record DlqView : Type 0 where
  pub dlq_job_id : String
  pub original_job_id : String
  pub user_id : String
  pub payload : Fields
  pub failed_reason : String
  pub failed_at : String
  pub created_at : String

unfoldable pub find_dlq : List (String × DeadLetter) → List DlqView
find_dlq = map λ (id, d). record {
  dlq_job_id = id;
  original_job_id = d.original_job_id;
  user_id = d.job.user_id;
  payload = d.job.payload;
  failed_reason = d.failed_reason;
  failed_at = d.failed_at;
  created_at = d.job.created_at;
}

-- The job that is added again: five fields of the old data, under a new id.
unfoldable pub retried : String → DeadLetter → JobData
retried id d = record {
  id = id;
  user_id = d.job.user_id;
  priority = some (or_normal d.job.priority);
  task_type = none;
  model = none;
  payload = d.job.payload;
  created_at = d.job.created_at;
  dag_id = none;
  dag_node_id = none;
  workflow_id = none;
  step_name = none;
  step_index = none;
}

unfoldable pub retry_from_dlq :
    (id dlq_job_id : String) → Option DeadLetter → Result TaskError (List Effect × Task)
unfolding retried
retry_from_dlq id dlq_job_id none = err (dlq_job_not_found dlq_job_id)
retry_from_dlq id dlq_job_id (some d) = ok (
  add (get_user_queue_name d.job.user_id) (retried id d) (record {
    job_id = id;
    priority = some (priority_map (or_normal d.job.priority));
    attempts = default_attempts;
  })
      ∷ remove_dead_letter dlq_job_id
      ∷ [],
  record {
    id = id;
    user_id = d.job.user_id;
    priority = some (or_normal d.job.priority);
    status = TaskStatus.pending;
    task_type = none;
    model = none;
    token_usage = none;
    cost = none;
    payload = d.job.payload;
    created_at = d.job.created_at;
  },
)

-- BackpressureGuard. `explicit` is BACKPRESSURE_THRESHOLD as a number, `none` where it is unset.
unfoldable pub threshold : (explicit : Option ℕ) → (concurrency : ℕ) → ℕ
threshold none concurrency = concurrency * 100
threshold (some n) concurrency = n

-- 429, with the user, the depth and the threshold of the body.
pub data TooManyRequests : Type 0 where
  too_many_requests : (user_id : String) → (depth threshold : ℕ) → TooManyRequests

unfoldable pub can_activate :
    (limit : ℕ) (user_id : Option String) (depth : String → ℕ) → Result TooManyRequests Bool
can_activate limit none depth = ok true
can_activate limit (some user) depth =
    if user == ""
    then ok true
    else if leb limit (depth user)
    then err (too_many_requests user (depth user) limit)
    else ok true
