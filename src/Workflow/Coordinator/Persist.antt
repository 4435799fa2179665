-- ===== src/Workflow/Coordinator/Persist.antt =====
-- What a DAG's keys hold after `persist`.
use mathlib.Core.List.{append-nil}
use ai_task_orchestrator.Base.{
  ◌≡◌, refl, sym, ap, ◌∙◌, ◌≢◌, String, true, List, [], ◌∷◌, ◌++◌, map, arith, includes, count,
  IsDistinct, inl, inr, eq_iff, eq_refl, eq_cases, Option, some, pos, length,
}
use ai_task_orchestrator.Workflow.{DagNodeInput, DagMeta, deps, ids, deps_of}
use ai_task_orchestrator.Workflow.Sort.{Adjacency, children}
use ai_task_orchestrator.Workflow.Sort.Outcome.{IsClosed}
use ai_task_orchestrator.Workflow.Sort.Dependents.{build_dependents_lem}
use ai_task_orchestrator.Workflow.Store.{
  Redis, Hash, nodes, dependents, statuses, Location, meta, remaining, entry, meta_json, node_json,
  names_json, number, status,
}
use ai_task_orchestrator.Workflow.Coordinator.{
  initial_status, persist_node, persist_nodes, persist, expire_all,
}

pub deps_of-absent :
    (ns : List DagNodeInput) (v : String) → count v (ids ns) ≡ 0 → deps_of ns v ≡ []
deps_of-absent [] v h = refl
deps_of-absent (n ∷ ns) v h = ground (arith, deps_of-absent ns v)

module _ (r : Redis) (dag : String) where
  open r use {Store, get, set, expire, get-set_self, get-set_ne, get-expire}

  -- The keys of one node.
  pub record Holds (s : Store) (map : Adjacency) (n : DagNodeInput) : Type 0 where
    pub node : get s (entry nodes dag n.id) ≡ some (node_json n)
    pub list : get s (entry dependents dag n.id) ≡ some (names_json (children map n.id))
    pub left : get s (remaining dag n.id) ≡ some (number (pos (length (deps n))))
    pub state : get s (entry statuses dag n.id) ≡ some (status (initial_status n))

  -- The four writes of one node, read at another location.
  persist_node-apart :
      (s : Store) (map : Adjacency) (n : DagNodeInput) (b : Location)
      → entry nodes dag n.id ≢ b
      → entry dependents dag n.id ≢ b
      → remaining dag n.id ≢ b
      → entry statuses dag n.id ≢ b
      → get (persist_node r s dag map n) b ≡ get s b
  unfolding persist_node
  persist_node-apart s map n b h₁ h₂ h₃ h₄ =
      get-set_ne _ (entry statuses dag n.id) b _ h₄
      ∙ get-set_ne _ (remaining dag n.id) b _ h₃
      ∙ get-set_ne _ (entry dependents dag n.id) b _ h₂
      ∙ get-set_ne s (entry nodes dag n.id) b _ h₁

  persist_node-Holds :
      (s : Store) (map : Adjacency) (n : DagNodeInput) → Holds (persist_node r s dag map n) map n
  unfolding persist_node
  persist_node-Holds s map n = record {
    node =
        get-set_ne _ (entry statuses dag n.id) (entry nodes dag n.id) _ (λ e. cc)
        ∙ get-set_ne _ (remaining dag n.id) (entry nodes dag n.id) _ (λ e. cc)
        ∙ get-set_ne _ (entry dependents dag n.id) (entry nodes dag n.id) _ (λ e. cc)
        ∙ get-set_self s (entry nodes dag n.id) _;
    list =
        get-set_ne _ (entry statuses dag n.id) (entry dependents dag n.id) _ (λ e. cc)
        ∙ get-set_ne _ (remaining dag n.id) (entry dependents dag n.id) _ (λ e. cc)
        ∙ get-set_self _ (entry dependents dag n.id) _;
    left =
        get-set_ne _ (entry statuses dag n.id) (remaining dag n.id) _ (λ e. cc)
        ∙ get-set_self _ (remaining dag n.id) _;
    state = get-set_self _ (entry statuses dag n.id) _;
  }

  persist_node-keeps :
      (s : Store) (map : Adjacency) (m n : DagNodeInput)
      → n.id ≢ m.id
      → Holds s map m
      → Holds (persist_node r s dag map n) map m
  persist_node-keeps s map m n ne h = record {
    node = at_entry nodes ∙ h.node;
    list = at_entry dependents ∙ h.list;
    left =
        persist_node-apart s map n (remaining dag m.id) (λ e. cc) (λ e. cc) (λ e. ne (cc)) (λ e. cc)
        ∙ h.left;
    state = at_entry statuses ∙ h.state;
  }
    where
      at_entry :
          (k : Hash)
          → get (persist_node r s dag map n) (entry k dag m.id) ≡ get s (entry k dag m.id)
      at_entry k =
          persist_node-apart s map n (entry k dag m.id) (λ e. ne (cc)) (λ e. ne (cc)) (λ e. cc)
            (λ e. ne (cc))

  persist_nodes-keeps :
      (s : Store) (map : Adjacency) (m : DagNodeInput) (ns : List DagNodeInput)
      → count m.id (ids ns) ≡ 0
      → Holds s map m
      → Holds (persist_nodes r s dag map ns) map m
  unfolding persist_nodes
  persist_nodes-keeps s map m [] absent h = h
  persist_nodes-keeps s map m (n ∷ ns) absent h =
      persist_nodes-keeps (persist_node r s dag map n) map m ns (ground arith)
        (persist_node-keeps s map m n (λ e. omega (arith, apart e)) h)
    where
      apart : n.id ≡ m.id → ⊥
      apart e = ground (arith, (eq_iff n.id m.id).1 e)

  -- Every node of the list holds its keys.
  persist_nodes-Holds :
      (s : Store) (map : Adjacency) (ns : List DagNodeInput)
      → IsDistinct (ids ns)
      → (v : String) → includes v (ids ns) ≡ true
      → (n : DagNodeInput) × (n.id ≡ v)
        × Holds (persist_nodes r s dag map ns) map n
        × (deps_of ns v ≡ deps n)
  unfolding persist_nodes
  persist_nodes-Holds s map [] d v h = absurd (cc)
  persist_nodes-Holds s map (n ∷ ns) d v h = elim (eq_cases n.id v) [
    | inl (t, e) ↦
        let absent : count n.id (ids ns) ≡ 0 = ground (arith, d n.id, eq_refl n.id) in
        (
          n,
          e,
          persist_nodes-keeps (persist_node r s dag map n) map n ns absent
              (persist_node-Holds s map n),
          rw t (
              ap (λ l. deps n ++ l)
                (deps_of-absent ns v (ap (λ (w : String). count w (ids ns)) (sym e) ∙ absent))
              ∙ append-nil (deps n)),
        )
    | inr (f, ne) ↦
        let (m, e, held, same) =
          persist_nodes-Holds (persist_node r s dag map n) map ns (λ x. omega (arith, d x)) v
            (ground arith) in
        (m, e, held, rw f same)
  ]

  Holds-expire :
      (s : Store) (map : Adjacency) (n : DagNodeInput)
      → Holds s map n
      → Holds (expire_all r s dag) map n
  Holds-expire s map n h = record {
    node = same (entry nodes dag n.id) ∙ h.node;
    list = same (entry dependents dag n.id) ∙ h.list;
    left = same (remaining dag n.id) ∙ h.left;
    state = same (entry statuses dag n.id) ∙ h.state;
  }
    where
      same : (b : Location) → get (expire_all r s dag) b ≡ get s b
      same b = get-expire _ _ dag _ b ∙ get-expire _ _ dag _ b ∙ get-expire _ _ dag _ b

  -- After `persist` each node holds its keys, and a dependents' list is the reverse of the
  -- dependencies.
  pub record Persisted (ns : List DagNodeInput) (result : Option Store) : Type 0 where
    pub store : Store
    pub map : Adjacency
    pub returned : result ≡ some store
    pub reverse : (u v : String) → count v (children map u) ≡ count u (deps_of ns v)
    pub held :
        (v : String)
        → includes v (ids ns) ≡ true
        → (n : DagNodeInput) × (n.id ≡ v) × Holds store map n × (deps_of ns v ≡ deps n)

pub persist-Persisted :
    (r : Redis) (s : r.Store) (m : DagMeta) (ns : List DagNodeInput)
    → IsDistinct (ids ns)
    → IsClosed ns
    → Persisted r m.dag_id ns (persist r s m ns)
unfolding persist
persist-Persisted r s m ns d closed =
    let (map, e, reverse) = build_dependents_lem ns closed in
    let start = r.set s (meta m.dag_id) (meta_json m) in
    record {
      store = expire_all r (persist_nodes r start m.dag_id map ns) m.dag_id;
      map = map;
      returned = rw (e, persist);
      reverse = reverse;
      held = λ v h.
          let (n, named, held, same) = persist_nodes-Holds r m.dag_id start map ns d v h in
          (
            n,
            named,
            Holds-expire r m.dag_id (persist_nodes r start m.dag_id map ns) map n held,
            same,
          );
    }
