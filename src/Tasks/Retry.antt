-- ===== src/Tasks/Retry.antt =====
-- What a retry from the dead letter queue keeps, and the guard on new tasks.
use ai_task_orchestrator.Base.{
  ℕ, ◌<◌, ◌≤◌, ◌≡◌, refl, ◌≢◌, ◌↔◌, ◌⊎◌, inl, inr, String, true, List, [], ◌∷◌, Option, none, some,
  arith, eq_cases,
}
use ai_task_orchestrator.Base.Given.{Given}
use ai_task_orchestrator.Base.Json.{Json, Fields}
use ai_task_orchestrator.Base.Result.{ok, err}
use ai_task_orchestrator.Queue.{TaskPriority, TaskType, get_user_queue_name}
use ai_task_orchestrator.Jobs.{JobData, JobOptions, DeadLetter, Effect, add, JobState}
use ai_task_orchestrator.Models.{Clients}
use ai_task_orchestrator.Router.{resolve, first_available}
use ai_task_orchestrator.Workflow.{DagNodeInput}
use ai_task_orchestrator.Workflow.Store.{Redis}
use ai_task_orchestrator.Worker.{on_dag_node_completed}
use ai_task_orchestrator.Tasks.{
  create, queued_priority, or_normal, find_one, FoundJob, state_map, retried, can_activate,
  too_many_requests,
}
use ai_task_orchestrator.Models.{get_default_model}

-- The job that a retry adds has lost the model and the task type of the failed task, so it is
-- routed to the default model whatever that task asked for; and it has lost its place in a DAG, so
-- its completion changes no DAG and adds no job.
pub retried_forgets :
    (id : String) (d : DeadLetter) (c : Clients) (r : Redis) (uuid : DagNodeInput → String)
    (created_at : String) (s : r.Store) (result : Json)
    → (resolve c (retried id d).model (retried id d).task_type ≡ some "llama3.2")
      × (on_dag_node_completed r uuid created_at s (retried id d) result ≡ (s, []))
unfolding resolve retried on_dag_node_completed get_default_model first_available
retried_forgets id d c r uuid created_at s result = (refl, refl)

-- The job that `queue.add` has put into its queue, while it is in the state `st`.
abbrev pub stored : List Effect → JobState → Option FoundJob
stored (add queue j o ∷ _) st = some (record { job = j; job_id = o.job_id; state = st })
stored _ st = none

-- The one job that `create` adds.
pub create-adds :
    (id created_at user : String) (payload : Fields) (p : Given TaskPriority)
    (model : Option String) (t : Option TaskType)
    → (j : JobData) × (o : JobOptions) × ((create id created_at user payload p model t).0
        ≡ add (get_user_queue_name user) j o ∷ [])
      × (o.priority ≡ queued_priority p)
unfolding create
create-adds id created_at user payload p model t = (_, _, refl, refl)

-- A task that is looked up right after its creation, while its job is in the state `st`, is the task that
-- `create` returned with the status of `st`, but its model and its task type are missing, and a
-- priority that is null has become the normal one.
pub find_one-create :
    (id created_at user : String) (payload : Fields) (p : Given TaskPriority)
    (model : Option String) (t : Option TaskType) (st : JobState)
    → find_one id (stored (create id created_at user payload p model t).0 st)
      ≡ ok (record (create id created_at user payload p model t).1 {
        priority = some (or_normal (create id created_at user payload p model t).1.priority);
        status = state_map st;
        model = none;
        task_type = none;
      })
unfolding create find_one
find_one-create id created_at user payload p model t st = refl

-- A task is let in exactly if it names no user, or the empty one, or fewer jobs than the threshold
-- wait or run in that user's queue; and it is refused, with the user, the depth and the threshold,
-- exactly if it names a user whose queue has reached the threshold.
pub can_activate_lem :
    (limit : ℕ) (user : String) (depth : String → ℕ)
    → ((can_activate limit (some user) depth ≡ ok true) ↔ ((user ≡ "") ⊎ (depth user < limit)))
      × ((can_activate limit (some user) depth ≡ err (too_many_requests user (depth user) limit))
          ↔ ((user ≢ "") × (limit ≤ depth user)))
      × (can_activate limit none depth ≡ ok true)
unfolding can_activate
can_activate_lem limit user depth = elim (eq_cases user "") [
  | inl (t, e) ↦ (
    (λ h. inl e, λ h. rw t refl),
    (λ h. absurd (ground (arith, t, h)), λ h. absurd (h.0 e)),
    refl,
  )
  | inr (f, ne) ↦ (
    (λ h. inr (ground arith), λ h. ground arith),
    (λ h. (ne, ground arith), λ h. rw f (ground arith)),
    refl,
  )
]
