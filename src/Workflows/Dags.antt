-- ===== src/Workflows/Dags.antt =====
-- A DAG from its creation to its last job: which jobs are added, and how often.
use ai_task_orchestrator.Base.{
  ℕ, ◌≡◌, ◌≢◌, refl, ◌∙◌, ap, String, List, [], ◌∷◌, ◌++◌, none, some, length, arith, inl, inr,
  count, missing, includes, IsDistinct, if◌then◌else◌, eqb, eq_cases, length-append,
  includes-false_iff,
}
use ai_task_orchestrator.Queue.{TaskPriority}
use ai_task_orchestrator.Jobs.{Effect, add, add_dead_letter, remove_dead_letter}
use ai_task_orchestrator.Workflow.{DagNodeInput, deps, ids, deps_of}
use ai_task_orchestrator.Workflow.Store.{
  Redis, job_ids, remaining, entry, nodes, dependents, text, Location,
}
use ai_task_orchestrator.Workflow.Coordinator.{set_job_id, ttl_seconds, as_node, get_node}
use ai_task_orchestrator.Workflow.Coordinator.Persist.{deps_of-absent}
use ai_task_orchestrator.Workflow.Coordinator.Progress.{Tracks}
use ai_task_orchestrator.Workflows.{enqueue_roots, root_nodes}

-- The DAG nodes that the added jobs are for, in the order of the calls.
abbrev pub node_of : Effect → List String
node_of (add queue j o) = elim j.dag_node_id [ none ↦ [] | some id ↦ id ∷ [] ]
node_of (add_dead_letter d) = []
node_of (remove_dead_letter id) = []

abbrev pub nodes_of : List Effect → List String
nodes_of [] = []
nodes_of (e ∷ es) = node_of e ++ nodes_of es

-- 1 if `v` is a node and depends on nothing outside `done`.
abbrev pub is_due : List DagNodeInput → List String → String → ℕ
is_due ns done v =
    if includes v (ids ns) then (if eqb (missing done (deps_of ns v)) 0 then 1 else 0) else 0

-- In a list of distinct nodes, each node without dependencies is a root once.
pub root_nodes-count :
    (ns : List DagNodeInput)
    → IsDistinct (ids ns)
    → (v : String)
    → count v (ids (root_nodes ns))
      ≡ (if includes v (ids ns) then (if eqb (length (deps_of ns v)) 0 then 1 else 0) else 0)
root_nodes-count [] d v = refl
root_nodes-count (n ∷ ns) d v =
    let ih = root_nodes-count ns (λ x. omega (arith, d x)) v in
    elim (eq_cases n.id v) [
      | inl (t, e) ↦
          let absent : count v (ids ns) ≡ 0 = ground (arith, d v) in
          let rest = deps_of-absent ns v absent in
          ground (
            arith,
            ih,
            length-append (deps n) (deps_of ns v),
            ap length rest,
            (includes-false_iff v (ids ns)).1 absent,
          )
      | inr (f, ne) ↦ ground (arith, ih)
    ]

module _ (r : Redis) (uuid : DagNodeInput → String) (created_at user dag : String)
    (p : TaskPriority) where
  open r use {Store, get, set, get-set_ne, get-expire}

  -- The jobs that are added for the roots are one for each, in their order.
  pub enqueue_roots-nodes :
      (s : Store) (ns : List DagNodeInput)
      → nodes_of (enqueue_roots r uuid created_at user dag p s ns).1 ≡ ids ns
  unfolding enqueue_roots
  enqueue_roots-nodes s [] = refl
  enqueue_roots-nodes s (n ∷ ns) =
      ap (λ l. n.id ∷ l) (enqueue_roots-nodes (set_job_id r s dag n.id (uuid n)) ns)

  -- The ids of jobs are not among the keys that count.
  pub set_job_id-Tracks :
      (ns : List DagNodeInput) (done : List String) (s : Store) (id job : String)
      → Tracks r dag ns s done
      → Tracks r dag ns (set_job_id r s dag id job) done
  unfolding set_job_id get_node
  set_job_id-Tracks ns done s id job tr = record {
    left = λ v h. same (remaining dag v) (λ e. cc) ∙ tr.left v h;
    list =
        λ u h. let (l, e, c) = tr.list u h in (l, same (entry dependents dag u) (λ e. cc) ∙ e, c);
    node = λ v h.
        let (n, e, named) = tr.node v h in
        (n, ap as_node (same (entry nodes dag v) (λ e. cc)) ∙ e, named);
  }
    where
      same : (b : Location) → entry job_ids dag id ≢ b → get (set_job_id r s dag id job) b ≡ get s b
      same b ne =
          get-expire _ job_ids dag ttl_seconds b
          ∙ get-set_ne s (entry job_ids dag id) b (text job) ne

  pub enqueue_roots-Tracks :
      (all : List DagNodeInput) (done : List String) (s : Store) (ns : List DagNodeInput)
      → Tracks r dag all s done
      → Tracks r dag all (enqueue_roots r uuid created_at user dag p s ns).0 done
  unfolding enqueue_roots
  enqueue_roots-Tracks all done s [] tr = tr
  enqueue_roots-Tracks all done s (n ∷ ns) tr =
      enqueue_roots-Tracks all done (set_job_id r s dag n.id (uuid n)) ns
        (set_job_id-Tracks all done s n.id (uuid n) tr)
