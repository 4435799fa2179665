-- ===== src/Editor/Agreement.antt =====
-- The check of the editor and the check of the API accept the same graphs.
use ai_task_orchestrator.Base.{
  ℕ, ◌+◌, ◌≤◌, ◌<◌, ◌≡◌, ◌≢◌, ◌↔◌, refl, sym, ap, ◌∙◌, subst, String, Bool, true, false, List, [],
  ◌∷◌, map, arith, none, get_or, count, includes, eq_cases, Bool-cases, if◌then◌else◌, inl, inr,
  IsDistinct,
}
use ai_task_orchestrator.Base.Result.{ok}
use ai_task_orchestrator.Workflow.{deps_of}
use ai_task_orchestrator.Workflow.Sort.{topological_layers}
use ai_task_orchestrator.Workflow.Sort.Correct.{
  topological_layers-returns, layer_of, layer_of-IsRanked,
}
use ai_task_orchestrator.Editor.{
  Edge, EditorNode, would_create_cycle, check_edges, validate_dag, dependencies, node_input,
  build_dag_payload,
}
use ai_task_orchestrator.Editor.Paths.{Joins, Leads, here, along, Leads-trans}
use ai_task_orchestrator.Editor.Search.{would_create_cycle-decides}
use ai_task_orchestrator.Editor.Checks.{
  IsAcyclic, check_edges-decides, node_ids, IsBetween, ids-payload, deps_of-Joins,
}

-- `v` can be reached from `u`, as `wouldCreateCycle` says it.
abbrev reaches : List Edge → String → String → Bool
reaches es u v = get_or (would_create_cycle es v u) false

reaches_iff : (es : List Edge) (u v : String) → (reaches es u v ≡ true) ↔ Leads es u v
reaches_iff es u v = elim (would_create_cycle-decides es v u) [
  | inl (e, p) ↦ (λ h. p, λ q. rw e refl)
  | inr (e, far) ↦ (λ h. absurd (cc (rw e at h)), λ q. absurd (far q))
]

-- How many of the texts pass a test.
tally : (String → Bool) → List String → ℕ
tally p [] = 0
tally p (x ∷ xs) = (if p x then 1 else 0) + tally p xs

tally-le :
    (p q : String → Bool) (xs : List String)
    → ((x : String) → p x ≡ true → q x ≡ true)
    → tally p xs ≤ tally q xs
unfolding tally
tally-le p q [] h = omega arith
tally-le p q (x ∷ xs) h = ground (arith, tally-le p q xs h, h x)

tally-lt :
    (p q : String → Bool) (v : String) (xs : List String)
    → ((x : String) → p x ≡ true → q x ≡ true)
    → includes v xs ≡ true
    → p v ≡ false
    → q v ≡ true
    → tally p xs < tally q xs
unfolding tally
tally-lt p q v [] h k f t = absurd (cc)
tally-lt p q v (x ∷ xs) h k f t = elim (eq_cases x v) [
  | inl (_, e) ↦
      let f' : p x ≡ false = ap p e ∙ f in
      let t' : q x ≡ true = ap q e ∙ t in rw (f', t') (omega (arith, tally-le p q xs h))
  | inr (n, ne) ↦ ground (arith, tally-lt p q v xs h, k, f, t, n, h x)
]

-- The number of nodes from which `v` can be reached.
abbrev ancestors : List Edge → List String → String → ℕ
ancestors es known v = tally (λ u. reaches es u v) known

ancestors-lt :
    (es : List Edge) (known : List String) (u v : String)
    → IsAcyclic es
    → includes v known ≡ true
    → Joins es u v
    → ancestors es known u < ancestors es known v
ancestors-lt es known u v acyclic k j =
    tally-lt (λ x. reaches es x u) (λ x. reaches es x v) v known
      (λ x h.
        (reaches_iff es x v).1 (Leads-trans ((reaches_iff es x u).0 h) (along u v v j (here v))))
      k
      (elim (Bool-cases (reaches es v u)) [
        | inl t ↦ absurd (acyclic u v j ((reaches_iff es v u).0 t))
        | inr f ↦ f
      ])
      ((reaches_iff es v v).1 (here v))

-- On an acyclic graph the API finds layers.
pub acyclic-accepted :
    (n : EditorNode) (nodes : List EditorNode) (es : List Edge)
    → IsDistinct (node_ids (n ∷ nodes))
    → IsBetween es (node_ids (n ∷ nodes))
    → IsAcyclic es
    → (layers : List (List String)) × (topological_layers (build_dag_payload (n ∷ nodes) es)
        ≡ ok layers)
unfolding build_dag_payload
acyclic-accepted n nodes es d between acyclic =
    let all = n ∷ nodes in
    let same = ids-payload (dependencies [] es) all in
    topological_layers-returns (node_input (dependencies [] es) n)
      (map (node_input (dependencies [] es)) nodes) (ancestors es (node_ids all))
      (subst IsDistinct (sym same) d)
      (λ u v h. subst (λ l. includes u l ≡ true) (sym same) (between u v (edge u v h)).0)
      (λ u v h.
        ancestors-lt es (node_ids all) u v acyclic (between u v (edge u v h)).1 (edge u v h))
  where
    edge :
        (u v : String) → 0 < count u (deps_of (build_dag_payload (n ∷ nodes) es) v) → Joins es u v
    edge u v h = ground (arith, h, deps_of-Joins (n ∷ nodes) es u v d)

-- Layers rule out cycles.
rank-Leads :
    (es : List Edge) (rank : String → ℕ)
    → ((u v : String) → Joins es u v → rank u < rank v)
    → {u v : String} → Leads es u v
    → rank u ≤ rank v
rank-Leads es rank h (here u) = omega arith
rank-Leads es rank h (along u x v j p) = omega (arith, h u x j, rank-Leads es rank h p)

accepted-IsAcyclic :
    (nodes : List EditorNode) (es : List Edge) (layers : List (List String))
    → IsDistinct (node_ids nodes)
    → IsBetween es (node_ids nodes)
    → topological_layers (build_dag_payload nodes es) ≡ ok layers
    → IsAcyclic es
accepted-IsAcyclic nodes es layers d between h u v j p =
    omega (arith, rises u v j, rank-Leads es (layer_of layers) rises p)
  where
    rises : (a b : String) → Joins es a b → layer_of layers a < layer_of layers b
    rises a b k =
        layer_of-IsRanked (build_dag_payload nodes es) layers h a b
          (ground (arith, k, deps_of-Joins nodes es a b d, (between a b k).1))

pub check_edges_iff : (es : List Edge) → (check_edges [] es ≡ none) ↔ IsAcyclic es
check_edges_iff es = elim (check_edges-decides [] es) [
  | inl (e, h) ↦ (λ _. h, λ _. e)
  | inr (e, (u, v, j, p)) ↦ (λ k. absurd (cc), λ acyclic. absurd (acyclic u v j p))
]

empty_refused :
    (es : List Edge) (layers : List (List String))
    → topological_layers (build_dag_payload [] es) ≢ ok layers
unfolding topological_layers build_dag_payload
empty_refused es layers h = cc

-- On a graph whose nodes have distinct ids and whose edges join nodes, `validateDag` finds no fault
-- exactly if `topologicalLayers` of the API accepts the payload that `buildDagPayload` makes of it.
pub validate_dag-agrees :
    (nodes : List EditorNode) (es : List Edge)
    → IsDistinct (node_ids nodes)
    → IsBetween es (node_ids nodes)
    → (validate_dag nodes es ≡ none) ↔ (
        (layers : List (List String)) × (topological_layers (build_dag_payload nodes es)
          ≡ ok layers))
unfolding validate_dag
validate_dag-agrees [] es d between =
    (λ h. absurd (cc), λ (layers, h). absurd (empty_refused es layers h))
validate_dag-agrees (n ∷ nodes) es d between = (
  λ h. acyclic-accepted n nodes es d between ((check_edges_iff es).0 h),
  λ (layers, h). (check_edges_iff es).1 (accepted-IsAcyclic (n ∷ nodes) es layers d between h),
)
