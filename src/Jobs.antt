-- ===== src/Jobs.antt =====
-- The BullMQ jobs that the services add, as they write them. BullMQ itself is not code of the
-- program: a call of `queue.add` or `job.remove` is an effect in the order of the calls, and what a
-- queue answers is an argument.
use ai_task_orchestrator.Base.{ℕ, String, Option, some}
use ai_task_orchestrator.Base.Json.{Fields}
use ai_task_orchestrator.Queue.{TaskPriority, TaskType}

-- `job.data`; a field that a service leaves out, or sets to null, is `none`.
pub record JobData : Type 0 where
  pub id : String
  pub user_id : String
  pub priority : Option TaskPriority
  pub task_type : Option TaskType
  pub model : Option String
  pub payload : Fields
  pub created_at : String
  pub dag_id : Option String
  pub dag_node_id : Option String
  pub workflow_id : Option String
  pub step_name : Option String
  pub step_index : Option ℕ

pub record JobOptions : Type 0 where
  pub job_id : String
  pub priority : Option ℕ
  pub attempts : Option ℕ

-- A job of the dead letter queue: the data of the failed job and three more fields.
pub record DeadLetter : Type 0 where
  pub job : JobData
  pub original_job_id : String
  pub failed_reason : String
  pub failed_at : String

pub data Effect : Type 0 where
  add : (queue : String) → JobData → JobOptions → Effect
  add_dead_letter : DeadLetter → Effect
  remove_dead_letter : (id : String) → Effect

-- `attempts: 3`, also the default of the queues of TasksService.
abbrev pub default_attempts : Option ℕ
default_attempts = some 3

-- The states that `job.getState()` answers, with those that STATE_MAP lacks as `unknown`.
pub data JobState : Type 0 where
  waiting waiting_children delayed prioritized active completed failed unknown : JobState
