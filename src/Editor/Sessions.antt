-- ===== src/Editor/Sessions.antt =====
-- Sessions of the page: what a user can do to the graph before it is sent.
use ai_task_orchestrator.Base.{
  positive_cases, ℕ, ◌+◌, ◌<◌, ◌≡◌, refl, sym, ap, ◌∙◌, subst, String, true, List, [], ◌∷◌, ◌++◌,
  map, arith, Option, none, some, count, count-append, includes, includes-true_iff, ◌==◌, ◌||◌,
  eq_iff, eq_cases, Bool-cases, Option-cases, if◌then◌else◌, inl, inr, IsDistinct,
}
use ai_task_orchestrator.Base.Result.{ok}
use ai_task_orchestrator.Queue.{TaskPriority}
use ai_task_orchestrator.Jobs.{Effect}
use ai_task_orchestrator.Workflow.{DagNodeInput, DagMeta}
use ai_task_orchestrator.Workflow.Sort.{topological_layers}
use ai_task_orchestrator.Workflow.Store.{Redis}
use ai_task_orchestrator.Workflows.{create_dag, normalise}
use ai_task_orchestrator.Workflows.Lifecycle.{create_dag-accepts}
use ai_task_orchestrator.Editor.{
  Edge, EditorNode, EditorState, ReactFlow, Patch, Dict, node_input, dependencies,
  build_dag_payload, has_edge, validate_dag, make_node, initial, add_node, on_connect, delete_nodes,
  patch_selected, submit,
}
use ai_task_orchestrator.Editor.Search.{would_create_cycle-decides}
use ai_task_orchestrator.Editor.Paths.{Joins}
use ai_task_orchestrator.Editor.Checks.{IsAcyclic, node_ids, IsBetween}
use ai_task_orchestrator.Editor.Agreement.{acyclic-accepted, check_edges_iff}
use ai_task_orchestrator.Editor.Edits.{
  IsAcyclic-snoc, IsBetween-snoc, IsAcyclic-mono, count-without_ends, count-without_nodes,
  IsBetween-without, node_ids-patch_at, node_ids-append,
}

module _ (flow : ReactFlow) (label : ℕ → String) where
  -- What the user does. ReactFlow offers nodes of the graph only as the ends of a new edge; the keys
  -- that delete edges leave some of them.
  pub data Step (s : EditorState) : EditorState → Type 0 where
    added : Step s (add_node label s)
    connected :
        (e : Edge)
        → includes e.source (node_ids s.nodes) ≡ true
        → includes e.target (node_ids s.nodes) ≡ true
        → Step s (on_connect flow s e)
    deleted : (gone : List String) → Step s (delete_nodes gone s)
    unlinked :
        (left : List Edge)
        → ((u v : String) → Joins left u v → Joins s.edges u v)
        → Step s (record s { edges = left })
    edited : (p : Patch) → Step s (patch_selected p s)
    picked : (id : Option String) → Step s (record s { selected_id = id })
    sent : Step s (submit s).0

  pub data Reach : EditorState → Type 0 where
    start : Reach (initial label)
    after : (s t : EditorState) → Reach s → Step s t → Reach t

  -- Each id is the label of a number that the counter has passed.
  abbrev IsLabelled : ℕ → List String → Type 0
  IsLabelled counter known =
      (x : String) → 0 < count x known → (k : ℕ) × (k < counter) × (label k ≡ x)

  record IsSound (counter : ℕ) (nodes : List EditorNode) (edges : List Edge) : Type 0 where
    distinct : IsDistinct (node_ids nodes)
    labelled : IsLabelled counter (node_ids nodes)
    between : IsBetween edges (node_ids nodes)
    acyclic : IsAcyclic edges

  abbrev Inv : EditorState → Type 0
  Inv s = IsSound s.counter s.nodes s.edges

  initial-Inv : Inv (initial label)
  unfolding initial make_node
  initial-Inv = record {
    distinct = λ x. grind arith;
    labelled = λ x h. (1, omega arith, (eq_iff (label 1) x).0 (ground (arith, h)));
    between = λ u v j. absurd (omega arith);
    acyclic = λ u v j. absurd (omega arith);
  }

  count-grown :
      (ns : List EditorNode) (c : ℕ) (x : String)
      → count x (node_ids (ns ++ make_node label c ∷ []))
        ≡ count x (node_ids ns) + (if label c == x then 1 else 0)
  unfolding make_node
  count-grown ns c x = omega (
    arith,
    ap (count x) (node_ids-append ns (make_node label c ∷ [])),
    count-append x (node_ids ns) (label c ∷ []),
  )

  add_node-Inv :
      ((a b : ℕ) → label a ≡ label b → a ≡ b) → (s : EditorState) → Inv s → Inv (add_node label s)
  unfolding add_node
  add_node-Inv injective s i = record {
    distinct = λ x. elim (eq_cases (label s.counter) x) [
      | inl (t, e) ↦ elim (positive_cases (count x (node_ids s.nodes))) [
        | inl absent ↦ ground (arith, t, absent, count-grown s.nodes s.counter x)
        | inr there ↦
            let (k, less, same) = i.labelled x there in
            absurd (omega (arith, less, injective k s.counter (same ∙ sym e)))
      ]
      | inr (f, ne) ↦ ground (arith, f, i.distinct x, count-grown s.nodes s.counter x)
    ];
    labelled = λ x h. elim (eq_cases (label s.counter) x) [
      | inl (t, e) ↦ (s.counter, omega arith, e)
      | inr (f, ne) ↦
          let (k, less, same) =
            i.labelled x (ground (arith, f, h, count-grown s.nodes s.counter x)) in
          (k, omega arith, same)
    ];
    between = λ u v j. (stays u (i.between u v j).0, stays v (i.between u v j).1);
    acyclic = i.acyclic;
  }
    where
      stays :
          (x : String)
          → includes x (node_ids s.nodes) ≡ true
          → includes x (node_ids (s.nodes ++ make_node label s.counter ∷ [])) ≡ true
      stays x h = (includes-true_iff x (node_ids (s.nodes ++ make_node label s.counter ∷ []))).1 (
          omega
            (arith, (includes-true_iff x (node_ids s.nodes)).0 h, count-grown s.nodes s.counter x))

  on_connect-Inv :
      (s : EditorState) (e : Edge)
      → includes e.source (node_ids s.nodes) ≡ true
      → includes e.target (node_ids s.nodes) ≡ true
      → Inv s
      → Inv (on_connect flow s e)
  unfolding on_connect
  on_connect-Inv s e from to i = elim (Bool-cases (e.source == "" || e.target == "")) [
    | inl t ↦ rw t i
    | inr f ↦ elim (would_create_cycle-decides s.edges e.source e.target) [
      | inl (t, _) ↦ rw (f, t) i
      | inr (g, apart) ↦ elim (Bool-cases (has_edge s.edges e)) [
        | inl t ↦ rw (f, g, t) i
        | inr h ↦
            rw (f, g, h, flow.add_edge-new e s.edges h)
              record {
                distinct = i.distinct;
                labelled = i.labelled;
                between = IsBetween-snoc s.edges e (node_ids s.nodes) i.between from to;
                acyclic = IsAcyclic-snoc s.edges e i.acyclic apart;
              }
      ]
    ]
  ]

  delete_nodes-Inv : (s : EditorState) (gone : List String) → Inv s → Inv (delete_nodes gone s)
  unfolding delete_nodes
  delete_nodes-Inv s gone i = record {
    distinct = λ x. ground (arith, count-without_nodes gone s.nodes x, i.distinct x);
    labelled = λ x h. i.labelled x (ground (arith, h, count-without_nodes gone s.nodes x));
    between = IsBetween-without gone s.nodes s.edges i.between;
    acyclic =
        IsAcyclic-mono (λ u v j. ground (arith, j, count-without_ends gone s.edges u v)) i.acyclic;
  }

  patch_selected-Inv : (s : EditorState) (p : Patch) → Inv s → Inv (patch_selected p s)
  unfolding patch_selected
  patch_selected-Inv s p i = elim (Option-cases s.selected_id) [
    | inl e ↦ rw e i
    | inr (id, e) ↦ elim (Bool-cases (id == "")) [
      | inl t ↦ rw (e, t) i
      | inr f ↦
          let same = sym (node_ids-patch_at p id s.nodes) in
          rw (e, f)
            record {
              distinct = subst IsDistinct same i.distinct;
              labelled = subst (IsLabelled s.counter) same i.labelled;
              between = subst (IsBetween s.edges) same i.between;
              acyclic = i.acyclic;
            }
    ]
  ]

  submit-Inv : (s : EditorState) → Inv s → Inv (submit s).0
  unfolding submit
  submit-Inv s i = elim (Option-cases (validate_dag s.nodes s.edges)) [
    | inl e ↦ rw (e, submit) i
    | inr (error, e) ↦ rw (e, submit) i
  ]

  module _ (injective : (a b : ℕ) → label a ≡ label b → a ≡ b) where
    Step-Inv : (s t : EditorState) → Step s t → Inv s → Inv t
    Step-Inv s t added i = add_node-Inv injective s i
    Step-Inv s t (connected e from to) i = on_connect-Inv s e from to i
    Step-Inv s t (deleted gone) i = delete_nodes-Inv s gone i
    Step-Inv s t (unlinked left h) i = record {
      distinct = i.distinct;
      labelled = i.labelled;
      between = λ u v j. i.between u v (h u v j);
      acyclic = IsAcyclic-mono h i.acyclic;
    }
    Step-Inv s t (edited p) i = patch_selected-Inv s p i
    Step-Inv s t (picked id) i = i
    Step-Inv s t sent i = submit-Inv s i

    Reach-Inv : (s : EditorState) → Reach s → Inv s
    Reach-Inv s start = initial-Inv
    Reach-Inv s (after r t h step) = Step-Inv r t step (Reach-Inv r h)

normalise-payload :
    (m : Dict (List String)) (ns : List EditorNode)
    → normalise (map (node_input m) ns) ≡ map (node_input m) ns
normalise-payload m [] = refl
normalise-payload m (n ∷ ns) = ap (λ l. node_input m n ∷ l) (normalise-payload m ns)

submit-accepted :
    (s : EditorState)
    → validate_dag s.nodes s.edges ≡ none
    → submit s ≡ (record s { notice = none }, some (build_dag_payload s.nodes s.edges))
unfolding submit
submit-accepted s h = rw (h, submit) refl

-- Take a page on which a user added nodes, drew edges between nodes of the graph, deleted nodes and
-- edges, edited nodes and sent the graph, in any order. While a node is left, sending the graph finds
-- no fault, and `createDag` of the API accepts what is sent and creates the DAG, at any store.
pub submit-create_dag :
    (flow : ReactFlow) (label : ℕ → String) (s : EditorState) (n : EditorNode)
    (nodes : List EditorNode) (r : Redis) (uuid : DagNodeInput → String)
    (dag created_at user : String) (p : Option TaskPriority) (store : r.Store)
    → ((a b : ℕ) → label a ≡ label b → a ≡ b)
    → Reach flow label s
    → s.nodes ≡ n ∷ nodes
    → (submit s ≡ (record s { notice = none }, some (build_dag_payload s.nodes s.edges)))
      × (t : r.Store) × (first : List Effect) × (m : DagMeta) × (create_dag r uuid dag created_at
            user p store
            (build_dag_payload s.nodes s.edges)
          ≡ ok ((t, first), m))
unfolding validate_dag build_dag_payload
submit-create_dag flow label s n nodes r uuid dag created_at user p store injective reach there =
    let i = Reach-Inv flow label injective s reach in
    let known = subst (λ l. IsDistinct (node_ids l)) there i.distinct in
    let between = subst (λ l. IsBetween s.edges (node_ids l)) there i.between in
    let (layers, h) = acyclic-accepted n nodes s.edges known between i.acyclic in
    let all : topological_layers (build_dag_payload s.nodes s.edges) ≡ ok layers =
      subst (λ l. topological_layers (build_dag_payload l s.edges) ≡ ok layers) (sym there) h in
    let same = normalise-payload (dependencies [] s.edges) s.nodes in
    let (t, first, m, made) =
      create_dag-accepts r uuid dag created_at user p store (build_dag_payload s.nodes s.edges)
        layers (ap topological_layers same ∙ all) in
    (
      submit-accepted s
          (ap (λ l. validate_dag l s.edges) there ∙ (check_edges_iff s.edges).1 i.acyclic),
      t,
      first,
      m,
      made,
    )
