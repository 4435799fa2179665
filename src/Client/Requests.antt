-- ===== src/Client/Requests.antt =====
-- apps/web/src/lib/api.ts: the requests of the client, and how it reads their answers.
use Prim.Native.String
use ai_task_orchestrator.Base.{ℕ, String, List, [], ◌∷◌, Option, none, some}
use ai_task_orchestrator.Base.Json.{Fields}
use ai_task_orchestrator.Base.Result.{Result, err}
use ai_task_orchestrator.Queue.{TaskType}
use ai_task_orchestrator.Chaos.{ChaosAction}
use ai_task_orchestrator.Workflow.{DagNodeInput}

pub data Method : Type 0 where
  get post : Method

-- The inputs of the requests with a body, before `JSON.stringify`.
pub data RequestBody : Type 0 where
  new_task : (user_id : String) (task_type : Option TaskType) → Fields → RequestBody
  new_dag : (user_id : String) → List DagNodeInput → RequestBody
  new_chaos : (duration_ms latency_ms : Option ℕ) → RequestBody

pub record Request : Type 0 where
  pub method : Method
  pub path : String
  pub headers : List (String × String)
  pub body : Option RequestBody

abbrev json_type : String × String
json_type = ("content-type", "application/json")

abbrev action_name : ChaosAction → String
action_name ChaosAction.kill_worker = "killWorker"
action_name ChaosAction.pause_redis = "pauseRedis"
action_name ChaosAction.inject_latency = "injectLatency"

abbrev plain : String → Request
plain path = record { method = get; path = path; headers = []; body = none }

-- `encode` is `encodeURIComponent`.
module _ (encode : String → String) where
  abbrev pub create_task_request : String → Option TaskType → Fields → Request
  create_task_request user task_type payload = record {
    method = post;
    path = "/tasks";
    headers = json_type ∷ [];
    body = some (new_task user task_type payload);
  }

  abbrev pub get_task_request : (id user : String) → Request
  get_task_request id user =
      plain (String.◌++◌ "/tasks/" (String.◌++◌ id (String.◌++◌ "?userId=" (encode user))))

  abbrev pub list_dlq_request : Request
  list_dlq_request = plain "/tasks/dlq"

  abbrev pub fetch_prometheus_request : Request
  fetch_prometheus_request = plain "/metrics"

  abbrev pub get_dag_status_request : String → Request
  get_dag_status_request id = plain (String.◌++◌ "/workflows/dag/" (encode id))

  abbrev pub create_dag_request : String → List DagNodeInput → Request
  create_dag_request user nodes = record {
    method = post;
    path = "/workflows/dag";
    headers = json_type ∷ [];
    body = some (new_dag user nodes);
  }

abbrev pub get_chaos_status_request : (token : String) → Request
get_chaos_status_request token = record {
  method = get;
  path = "/admin/chaos";
  headers = ("x-admin-token", token) ∷ [];
  body = none;
}

abbrev pub trigger_chaos_request :
    ChaosAction → (token : String) → (duration latency : Option ℕ) → Request
trigger_chaos_request action token duration latency = record {
  method = post;
  path = String.◌++◌ "/admin/chaos/" (action_name action);
  headers = json_type ∷ ("x-admin-token", token) ∷ [];
  body = some (new_chaos duration latency);
}

-- The `message` of the body of an answer that is not ok.
pub data ErrorBody : Type 0 where
  no_json no_message : ErrorBody
  message : String → ErrorBody
  messages : List String → ErrorBody

-- What `fetch` gives: an answer that is ok, whose body parses or does not, one that is not, or an
-- error of the connection.
pub data Reply (Body : Type 0) : Type 0 where
  succeeded : Result String Body → Reply Body
  refused : (status : String) → ErrorBody → Reply Body
  unreachable : String → Reply Body

abbrev pub http : String → String
http status = String.◌++◌ "HTTP " status

abbrev pub failed_request : (name status : String) → String
failed_request name status = String.◌++◌ name (String.◌++◌ " failed: " status)

-- `m.join('; ')`
abbrev join : List String → String
join [] = ""
join (m ∷ []) = m
join (m ∷ n ∷ ms) = String.◌++◌ m (String.◌++◌ "; " (join (n ∷ ms)))

-- `adminErr`, which `createDag` repeats.
unfoldable pub admin_err : (status : String) → ErrorBody → String
admin_err status no_json = http status
admin_err status no_message = http status
admin_err status (message m) = m
admin_err status (messages ms) = join ms

-- `if (!res.ok) throw new Error(…); return res.json()`
unfoldable pub body_or_throw :
    {Body : Type 0} (fault : String → ErrorBody → String) → Reply Body → Result String Body
body_or_throw fault (succeeded body) = body
body_or_throw fault (refused status e) = err (fault status e)
body_or_throw fault (unreachable m) = err m
