-- ===== src/Workflow/Coordinator.antt =====
-- libs/workflow/src/dag-coordinator.ts: the state of a DAG in Redis. A method takes the store and
-- returns the new one, with its result beside it.
pub mod Countdown
pub mod Persist
pub mod Progress
pub mod Runs
use ai_task_orchestrator.Base.{
  ℕ, ◌*◌, String, Bool, List, [], ◌∷◌, ◌++◌, Option, none, some, ℤ, pos, is_zero, length, get_or,
  eqb, if◌then◌else◌,
}
use ai_task_orchestrator.Base.Dict
use ai_task_orchestrator.Base.Dict.{Dict}
use ai_task_orchestrator.Base.Json.{Json}
use ai_task_orchestrator.Workflow.{
  DagNodeInput, DagMeta, NodeStatus, pending, ready, active, completed, failed, deps,
}
use ai_task_orchestrator.Workflow.Sort.{Adjacency, children, build_dependents}
use ai_task_orchestrator.Workflow.Store.{
  Redis, Hash, nodes, dependents, results, statuses, job_ids, failures, Location, meta, remaining,
  entry, Value, meta_json, node_json, names_json, result_json, number, status, text,
}

abbrev pub ttl_seconds : ℕ
ttl_seconds = 86400 * 7

-- `raw ? JSON.parse(raw) : null`, at each type that is stored.
abbrev pub as_meta : Option Value → Option DagMeta
as_meta (some (meta_json m)) = some m
as_meta _ = none

abbrev pub as_node : Option Value → Option DagNodeInput
as_node (some (node_json n)) = some n
as_node _ = none

abbrev pub as_names : Option Value → Option (List String)
as_names (some (names_json l)) = some l
as_names _ = none

abbrev pub as_result : Option Value → Option Json
as_result (some (result_json j)) = some j
as_result _ = none

abbrev pub as_status : Option Value → Option NodeStatus
as_status (some (status st)) = some st
as_status _ = none

abbrev pub as_text : Option Value → Option String
as_text (some (text t)) = some t
as_text _ = none

abbrev pub initial_status : DagNodeInput → NodeStatus
initial_status n = if eqb (length (deps n)) 0 then ready else pending

module _ (r : Redis) where
  open r use {Store, get, set, decr, expire}

  -- One round of the loop of `persist`.
  unfoldable pub persist_node : Store → String → Adjacency → DagNodeInput → Store
  persist_node s dag map n =
      let s₁ = set s (entry nodes dag n.id) (node_json n) in
      let s₂ = set s₁ (entry dependents dag n.id) (names_json (children map n.id)) in
      let s₃ = set s₂ (remaining dag n.id) (number (pos (length (deps n)))) in
      set s₃ (entry statuses dag n.id) (status (initial_status n))

  unfoldable pub persist_nodes : Store → String → Adjacency → List DagNodeInput → Store
  persist_nodes s dag map [] = s
  persist_nodes s dag map (n ∷ ns) = persist_nodes (persist_node s dag map n) dag map ns

  abbrev pub expire_all : Store → String → Store
  expire_all s dag =
      expire (expire (expire s nodes dag ttl_seconds) dependents dag ttl_seconds) statuses dag
        ttl_seconds

  -- `none`: `buildDependents` throws, and nothing is written.
  unfoldable pub persist : Store → DagMeta → List DagNodeInput → Option Store
  persist s m ns = elim (build_dependents ns) [
    | none ↦ none
    | some map ↦
        some (
          expire_all (persist_nodes (set s (meta m.dag_id) (meta_json m)) m.dag_id map ns) m.dag_id)
  ]

  unfoldable pub get_meta : Store → String → Option DagMeta
  get_meta s dag = as_meta (get s (meta dag))

  unfoldable pub get_node : Store → String → String → Option DagNodeInput
  get_node s dag id = as_node (get s (entry nodes dag id))

  -- The records that HGETALL returns are only read at a key: they are functions of the key.
  unfoldable pub get_all_nodes : Store → String → String → Option DagNodeInput
  get_all_nodes s dag id = as_node (get s (entry nodes dag id))

  unfoldable pub get_all_statuses : Store → String → String → Option NodeStatus
  get_all_statuses s dag id = as_status (get s (entry statuses dag id))

  unfoldable pub get_job_ids : Store → String → String → Option String
  get_job_ids s dag id = as_text (get s (entry job_ids dag id))

  unfoldable pub get_failures : Store → String → String → Option String
  get_failures s dag id = as_text (get s (entry failures dag id))

  -- One HMGET for all ids; `null` where there is no result yet.
  unfoldable pub collect_results : Store → String → Dict Json → List String → Dict Json
  collect_results s dag out [] = out
  collect_results s dag out (id ∷ ids) =
      collect_results s dag
        (Dict.set out id (get_or (as_result (get s (entry results dag id))) Json.null)) ids

  unfoldable pub get_results : Store → String → List String → Dict Json
  unfolding collect_results
  get_results s dag ids = collect_results s dag [] ids

  unfoldable pub set_job_id : Store → String → String → String → Store
  set_job_id s dag id job = expire (set s (entry job_ids dag id) (text job)) job_ids dag ttl_seconds

  unfoldable pub mark_active : Store → String → String → Store
  mark_active s dag id = set s (entry statuses dag id) (status active)

  -- `if (remaining === 0) { … }`, with the nodes that are ready so far.
  unfoldable pub make_ready :
      Store → String → String → List DagNodeInput → Store × List DagNodeInput
  unfolding get_node
  make_ready s dag dep found = elim (get_node s dag dep) [
    | none ↦ (s, found)
    | some n ↦ (set s (entry statuses dag dep) (status ready), found ++ n ∷ [])
  ]

  unfoldable pub count_down :
      Store → String → String → List DagNodeInput → Store × List DagNodeInput
  unfolding make_ready
  count_down s dag dep found =
      let (s', left) = decr s (remaining dag dep) in
      if is_zero left then make_ready s' dag dep found else (s', found)

  unfoldable pub find_ready :
      Store → String → List String → List DagNodeInput → Store × List DagNodeInput
  find_ready s dag [] found = (s, found)
  find_ready s dag (dep ∷ ds) found =
      let (s', found') = count_down s dag dep found in find_ready s' dag ds found'

  unfoldable pub store_result : Store → String → String → Json → Store
  store_result s dag id result =
      set (expire (set s (entry results dag id) (result_json result)) results dag ttl_seconds)
        (entry statuses dag id) (status completed)

  -- With no dependents the loop makes no round, as the early return says.
  unfoldable pub mark_complete_and_find_ready :
      Store → String → String → Json → Store × List DagNodeInput
  unfolding store_result find_ready count_down
  mark_complete_and_find_ready s dag id result =
      let s' = store_result s dag id result in
      find_ready s' dag (get_or (as_names (get s' (entry dependents dag id))) []) []

  unfoldable pub mark_failed : Store → String → String → String → Store
  mark_failed s dag id reason =
      expire
        (set (set s (entry statuses dag id) (status failed)) (entry failures dag id) (text reason))
        failures dag ttl_seconds
