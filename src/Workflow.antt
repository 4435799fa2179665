-- ===== src/Workflow.antt =====
-- libs/workflow/src/dag.interface.ts: the nodes of a DAG and its stored description.
pub mod Sort
pub mod Store
pub mod Coordinator
pub mod Interleaving
pub mod Memory
mod Examples
use ai_task_orchestrator.Base.{
  String, Option, List, [], ◌∷◌, ◌++◌, map, get_or, ◌==◌, if◌then◌else◌,
}
use ai_task_orchestrator.Base.Json.{Fields, Json}
use ai_task_orchestrator.Queue.{TaskType}

pub record DagNodeInput : Type 0 where
  pub id : String
  pub payload : Fields
  pub depends_on : Option (List String)
  pub task_type : Option TaskType
  pub model : Option String

pub data NodeStatus : Type 0 where
  pending ready active completed failed : NodeStatus

pub record DagMeta : Type 0 where
  pub dag_id : String
  pub user_id : String
  pub created_at : String
  pub node_ids : List String
  pub layers : List (List String)

-- `n.dependsOn ?? []`
abbrev pub deps : DagNodeInput → List String
deps n = get_or n.depends_on []

abbrev pub ids : List DagNodeInput → List String
ids = map (λ n. n.id)

-- All that the nodes of the id `v` depend on.
abbrev pub deps_of : List DagNodeInput → String → List String
deps_of [] v = []
deps_of (n ∷ ns) v = (if n.id == v then deps n else []) ++ deps_of ns v
