-- ===== src/Workflows/Lifecycle.antt =====
-- A DAG from the API call that creates it to the jobs that the worker adds as its nodes complete.
use mathlib.Core.List.{append-nil, append_assoc}
use ai_task_orchestrator.Base.{
  ◌+◌, ◌≡◌, refl, sym, ◌∙◌, ap, subst, String, true, false, List, [], ◌∷◌, ◌++◌, Option, some,
  length, arith, count, missing, includes, IsDistinct, count-append, eq_refl, List-cases,
  Bool-cases, inl, inr, includes-false_iff, if◌then◌else◌, eqb, get_or, missing-nil,
}
use ai_task_orchestrator.Base.Json.{Json}
use ai_task_orchestrator.Base.Result.{ok}
use ai_task_orchestrator.Queue.{TaskPriority}
use ai_task_orchestrator.Jobs.{JobData, Effect}
use ai_task_orchestrator.Tasks.{or_normal}
use ai_task_orchestrator.Workflow.{DagNodeInput, DagMeta, ids, deps_of}
use ai_task_orchestrator.Workflow.Sort.{topological_layers}
use ai_task_orchestrator.Workflow.Sort.Correct.{
  topological_layers-IsLayering, topological_layers-IsClosed,
}
use ai_task_orchestrator.Workflow.Store.{Redis}
use ai_task_orchestrator.Workflow.Coordinator.{set_job_id, persist, mark_complete_and_find_ready}
use ai_task_orchestrator.Workflow.Coordinator.Persist.{persist-Persisted, deps_of-absent}
use ai_task_orchestrator.Workflow.Coordinator.Progress.{
  Tracks, Persisted-Tracks, mark_complete-Tracks, released_by,
}
use ai_task_orchestrator.Workflow.Coordinator.Runs.{
  Completions, completed_ids, AllKnown, is_released, released_step,
}
use ai_task_orchestrator.Worker.{on_dag_node_completed, enqueue_found, enqueue_nodes, dag_of}
use ai_task_orchestrator.Workflows.{create_dag, enqueue_roots, root_nodes, normalise, store_dag}
use ai_task_orchestrator.Workflows.Dags.{
  node_of, nodes_of, is_due, root_nodes-count, set_job_id-Tracks, enqueue_roots-nodes,
  enqueue_roots-Tracks,
}

nodes_of-append : (xs ys : List Effect) → nodes_of (xs ++ ys) ≡ nodes_of xs ++ nodes_of ys
nodes_of-append [] ys = refl
nodes_of-append (x ∷ xs) ys =
    ap (λ l. node_of x ++ l) (nodes_of-append xs ys)
    ∙ sym (append_assoc (node_of x) (nodes_of xs) (nodes_of ys))

module _ (r : Redis) (uuid : DagNodeInput → String) (created_at dag : String)
    (job : String → JobData) where
  open r use {Store}

  -- The worker's calls of `onDagNodeCompleted` for a sequence of completed nodes.
  unfoldable pub complete_jobs : Store → Completions → Store × List Effect
  unfolding on_dag_node_completed
  complete_jobs s [] = (s, [])
  complete_jobs s ((u, result) ∷ rest) =
      let (s₁, effects) = on_dag_node_completed r uuid created_at s (job u) result in
      let (s₂, later) = complete_jobs s₁ rest in (s₂, effects ++ later)

  module _ (ns : List DagNodeInput) (done : List String) where
    enqueue_nodes-Tracks :
        (user : String) (p : TaskPriority) (s : Store) (found : List DagNodeInput)
        → Tracks r dag ns s done
        → Tracks r dag ns (enqueue_nodes r uuid created_at user dag p s found).0 done
    unfolding enqueue_nodes
    enqueue_nodes-Tracks user p s [] tr = tr
    enqueue_nodes-Tracks user p s (n ∷ found) tr =
        enqueue_nodes-Tracks user p (set_job_id r s dag n.id (uuid n)) found
          (set_job_id-Tracks r uuid created_at user dag p ns done s n.id (uuid n) tr)

  enqueue_nodes-nodes :
      (user : String) (p : TaskPriority) (s : Store) (found : List DagNodeInput)
      → nodes_of (enqueue_nodes r uuid created_at user dag p s found).1 ≡ ids found
  unfolding enqueue_nodes
  enqueue_nodes-nodes user p s [] = refl
  enqueue_nodes-nodes user p s (n ∷ found) =
      ap (λ l. n.id ∷ l) (enqueue_nodes-nodes user p (set_job_id r s dag n.id (uuid n)) found)

  on_completed-eq :
      (s : Store) (u : String) (result : Json)
      → dag_of (job u) ≡ some (dag, u)
      → on_dag_node_completed r uuid created_at s (job u) result
        ≡ enqueue_found r uuid created_at
            (job u)
            dag
            (mark_complete_and_find_ready r s dag u result)
  unfolding on_dag_node_completed
  on_completed-eq s u result h = rw (h, on_dag_node_completed) refl

  module _ (ns : List DagNodeInput)
      (names : (u : String) → includes u (ids ns) ≡ true → dag_of (job u) ≡ some (dag, u)) where
    completed_step :
        (s : Store) (done : List String) (u : String) (result : Json)
        → Tracks r dag ns s done
        → includes u (ids ns) ≡ true
        → count u done ≡ 0
        → Tracks r dag ns
            (on_dag_node_completed r uuid created_at s (job u) result).0
            (done ++ u ∷ [])
          × ((v : String)
              → count v (nodes_of (on_dag_node_completed r uuid created_at s (job u) result).1)
                ≡ released_by ns done u v)
    unfolding enqueue_found
    completed_step s done u result tr known absent =
        let (tr', found) = mark_complete-Tracks r dag ns s done u result tr known absent in
        let after = mark_complete_and_find_ready r s dag u result in
        let p = get_or (job u).priority TaskPriority.normal in
        rw (on_completed-eq s u result (names u known)) (
          enqueue_nodes-Tracks ns (done ++ u ∷ []) (job u).user_id p after.0 after.1 tr',
          λ v. ap (count v) (enqueue_nodes-nodes (job u).user_id p after.0 after.1) ∙ found v,
        )

    pub complete_jobs-count :
        (s : Store) (done : List String) (cs : Completions)
        → Tracks r dag ns s done
        → IsDistinct (done ++ completed_ids cs)
        → AllKnown (completed_ids cs) ns
        → (v : String)
        → is_released ns done v + count v (nodes_of (complete_jobs s cs).1)
          ≡ is_released ns (done ++ completed_ids cs) v
    unfolding complete_jobs
    complete_jobs-count s done [] tr d k v = rw (append-nil done) (omega arith)
    complete_jobs-count s done ((u, result) ∷ rest) tr d k v =
        let absent : count u done ≡ 0 =
          ground (arith, d u, count-append u done (u ∷ completed_ids rest), eq_refl u) in
        let (tr', found) =
          completed_step s done u result tr (k u (ground (arith, eq_refl u))) absent in
        let same = append_assoc done (u ∷ []) (completed_ids rest) in
        let (s₁, effects) = on_dag_node_completed r uuid created_at s (job u) result in
        let ih =
          complete_jobs-count s₁ (done ++ u ∷ []) rest tr' (subst IsDistinct (sym same) d)
            (λ w h. k w (omega arith)) v in
        omega (
          arith,
          ih,
          found v,
          released_step ns done u v absent,
          ap (count v) (nodes_of-append effects (complete_jobs s₁ rest).1),
          count-append v (nodes_of effects) (nodes_of (complete_jobs s₁ rest).1),
          ap (λ l. is_released ns l v) same,
        )

-- 1 for a node that depends on nothing outside `done`: a root, or one that is released.
due_lem :
    (ns : List DagNodeInput) (done : List String) (v : String)
    → (includes v (ids ns) ≡ false → deps_of ns v ≡ [])
    → (if includes v (ids ns) then (if eqb (length (deps_of ns v)) 0 then 1 else 0) else 0)
        + is_released ns done v
      ≡ is_due ns done v
due_lem ns done v outside = elim (List-cases (deps_of ns v)) [
  | inl e ↦ ground (arith, ap length e, ap (missing done) e)
  | inr (x, rest, e) ↦ elim (Bool-cases (includes v (ids ns))) [
    | inl t ↦ ground (arith, t, ap length e)
    | inr f ↦ absurd (omega (arith, ap length e, ap length (outside f)))
  ]
]

nothing_released : (ns : List DagNodeInput) (v : String) → is_released ns [] v ≡ 0
nothing_released ns v = ground (arith, missing-nil (deps_of ns v))

-- `createDag` once the nodes are accepted and stored.
created :
    (r : Redis) (uuid : DagNodeInput → String) (dag created_at user : String)
    (p : Option TaskPriority) (s : r.Store) (input : List DagNodeInput)
    (layers : List (List String)) (t : r.Store)
    → topological_layers (normalise input) ≡ ok layers
    → persist r s
        (record {
          dag_id = dag;
          user_id = user;
          created_at = created_at;
          node_ids = ids (normalise input);
          layers = layers;
        })
        (normalise input)
      ≡ some t
    → create_dag r uuid dag created_at user p s input
      ≡ ok (
        enqueue_roots r uuid created_at user dag (or_normal p) t (root_nodes (normalise input)),
        record {
          dag_id = dag;
          user_id = user;
          created_at = created_at;
          node_ids = ids (normalise input);
          layers = layers;
        },
      )
unfolding create_dag store_dag
created r uuid dag created_at user p s input layers t h stored =
    rw (h, create_dag) (rw (stored, store_dag) refl)

-- What passes the check of the layers is created.
pub create_dag-accepts :
    (r : Redis) (uuid : DagNodeInput → String) (dag created_at user : String)
    (p : Option TaskPriority) (s : r.Store) (input : List DagNodeInput)
    (layers : List (List String))
    → topological_layers (normalise input) ≡ ok layers
    → (t : r.Store) × (first : List Effect) × (m : DagMeta) × (create_dag r uuid dag created_at user
          p s input
        ≡ ok ((t, first), m))
create_dag-accepts r uuid dag created_at user p s input layers h =
    let ns = normalise input in
    let (distinct, _, _) = topological_layers-IsLayering ns layers h in
    let m : DagMeta = record {
      dag_id = dag;
      user_id = user;
      created_at = created_at;
      node_ids = ids ns;
      layers = layers;
    } in
    let stored = persist-Persisted r s m ns distinct (topological_layers-IsClosed ns layers h) in
    let (t, first) =
      enqueue_roots r uuid created_at user dag (or_normal p) stored.store (root_nodes ns) in
    (
      t,
      first,
      m,
      created r uuid dag created_at user p s input layers stored.store h stored.returned,
    )

-- Take a request for a DAG whose nodes `topologicalLayers` accepts. `createDag` succeeds with these
-- layers. Then let any nodes of the DAG complete, in any order, none of them twice, each in a job
-- that carries the ids of the DAG and of the node. Of all jobs that `createDag` and the worker add,
-- exactly one is for a node if all that the node depends on is among the completed nodes, and none
-- otherwise, nor for any text that is no node.
pub create_dag-enqueues :
    (r : Redis) (uuid : DagNodeInput → String) (dag created_at user : String)
    (p : Option TaskPriority) (s : r.Store) (input : List DagNodeInput)
    (layers : List (List String)) (job : String → JobData) (cs : Completions)
    → topological_layers (normalise input) ≡ ok layers
    → ((u : String) → includes u (ids (normalise input)) ≡ true → dag_of (job u) ≡ some (dag, u))
    → IsDistinct (completed_ids cs)
    → AllKnown (completed_ids cs) (normalise input)
    → (t : r.Store) × (first : List Effect) × (m : DagMeta) × (create_dag r uuid dag created_at user
          p s input
        ≡ ok ((t, first), m))
      × (m.layers ≡ layers)
      × ((v : String)
          → count v (nodes_of (first ++ (complete_jobs r uuid created_at dag job t cs).1))
            ≡ is_due (normalise input) (completed_ids cs) v)
create_dag-enqueues r uuid dag created_at user p s input layers job cs h names d k =
    let ns = normalise input in
    let (distinct, _, _) = topological_layers-IsLayering ns layers h in
    let m : DagMeta = record {
      dag_id = dag;
      user_id = user;
      created_at = created_at;
      node_ids = ids ns;
      layers = layers;
    } in
    let stored = persist-Persisted r s m ns distinct (topological_layers-IsClosed ns layers h) in
    let (t, first) =
      enqueue_roots r uuid created_at user dag (or_normal p) stored.store (root_nodes ns) in
    let tr =
      enqueue_roots-Tracks r uuid created_at user dag (or_normal p) ns [] stored.store
        (root_nodes ns) (Persisted-Tracks r dag ns s (persist r s m ns) stored) in
    (
      t,
      first,
      m,
      created r uuid dag created_at user p s input layers stored.store h stored.returned,
      refl,
      λ v.
          let later = (complete_jobs r uuid created_at dag job t cs).1 in
          omega (
            arith,
            complete_jobs-count r uuid created_at dag job ns names t [] cs tr d k v,
            due_lem ns (completed_ids cs) v
                (λ f. deps_of-absent ns v ((includes-false_iff v (ids ns)).0 f)),
            nothing_released ns v,
            root_nodes-count ns distinct v,
            ap (count v) (
                enqueue_roots-nodes r uuid created_at user dag (or_normal p) stored.store
                  (root_nodes ns)),
            ap (count v) (nodes_of-append first later),
            count-append v (nodes_of first) (nodes_of later),
          ),
    )
