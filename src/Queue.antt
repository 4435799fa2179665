-- ===== src/Queue.antt =====
-- libs/queue/src/task.interface.ts: the vocabulary of tasks.
use Prim.Native.String
use ai_task_orchestrator.Base.{ℕ, String, Option}
use ai_task_orchestrator.Base.Json.{Fields}

pub data TaskStatus : Type 0 where
  pending active completed failed : TaskStatus

pub data TaskPriority : Type 0 where
  critical high normal low : TaskPriority

-- PRIORITY_MAP: BullMQ serves the lower number first.
unfoldable pub priority_map : TaskPriority → ℕ
priority_map critical = 1
priority_map high = 2
priority_map normal = 3
priority_map low = 4

pub data TaskType : Type 0 where
  simple code complex : TaskType

pub record TokenUsage : Type 0 where
  pub input : ℕ
  pub output : ℕ

-- The priority is declared as one of the four, but may be null. `createdAt` is the clock's text. `cost` is in units of 10⁻⁸ US dollars.
pub record Task : Type 0 where
  pub id : String
  pub user_id : String
  pub priority : Option TaskPriority
  pub status : TaskStatus
  pub task_type : Option TaskType
  pub model : Option String
  pub token_usage : Option TokenUsage
  pub cost : Option ℕ
  pub payload : Fields
  pub created_at : String

abbrev pub task_queue_prefix : String
task_queue_prefix = "tasks-user-"

abbrev pub task_dlq : String
task_dlq = "tasks-dlq"

unfoldable pub get_user_queue_name : String → String
get_user_queue_name user_id = String.◌++◌ task_queue_prefix user_id
