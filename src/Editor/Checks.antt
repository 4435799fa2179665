-- ===== src/Editor/Checks.antt =====
-- What the check of the edges and the payload say of a graph.
use mathlib.Core.List.{append_assoc}
use ai_task_orchestrator.Base.{
  positive_cases, ◌≡◌, refl, sym, ap, ◌∙◌, subst, String, true, List, [], ◌∷◌, ◌++◌, map, arith,
  none, some, get_or, count, count-append, includes, includes-true_iff, ◌==◌, eq_refl, eq_cases,
  if◌then◌else◌, inl, inr, ◌⊎◌, IsDistinct,
}
use ai_task_orchestrator.Base.Dict
use ai_task_orchestrator.Base.Dict.{Dict}
use ai_task_orchestrator.Workflow.{ids, deps_of}
use ai_task_orchestrator.Editor.{
  Edge, EditorNode, cycle, check_edges, dependencies, node_input, build_dag_payload,
}
use ai_task_orchestrator.Editor.Paths.{
  targets, Joins, Leads, here, along, count-sources, count-targets_append, dependencies-sources,
}
use ai_task_orchestrator.Editor.Search.{would_create_cycle-decides}

-- No edge lies on a cycle.
abbrev pub IsAcyclic : List Edge → Type 0
IsAcyclic es = (u v : String) → Joins es u v → ¬ Leads es v u

pub Leads-mono :
    {es fs : List Edge} {u v : String}
    → ((a b : String) → Joins es a b → Joins fs a b)
    → Leads es u v
    → Leads fs u v
Leads-mono h (here u) = here u
Leads-mono h (along u x v j p) = along u x v (h u x j) (Leads-mono h p)

module _ (before : List Edge) (e : Edge) (after : List Edge) where
  -- Without the edge `e` there is still every path that ends at its source.
  Leads-without :
      {x y : String} → y ≡ e.source → Leads (before ++ e ∷ after) x y → Leads (before ++ after) x y
  Leads-without q (here x) = here x
  Leads-without q (along x z y j p) = elim (eq_cases e.source x) [
    | inl (t, same) ↦ subst (λ w. Leads (before ++ after) x w) (sym same ∙ sym q) (here x)
    | inr (f, ne) ↦
        along x z y
          (ground (
            arith,
            j,
            f,
            count-targets_append before (e ∷ after) x z,
            count-targets_append before after x z,
          ))
          (Leads-without q p)
  ]

  Leads-with : {x y : String} → Leads (before ++ after) x y → Leads (before ++ e ∷ after) x y
  Leads-with = Leads-mono λ a b j. omega (
    arith,
    count-targets_append before (e ∷ after) a b,
    count-targets_append before after a b,
    count-append b (if e.source == a then e.target ∷ [] else []) (targets after a),
  )

-- A joined pair that no later edge joins is that of the first edge.
first_edge :
    {es : List Edge} (u v : String) (e : Edge) (after : List Edge)
    → count v (targets after u) ≡ 0
    → Joins (e ∷ after) u v
    → Leads es v u
    → Leads es e.target e.source
first_edge {es} u v e after absent j p = elim (eq_cases e.source u) [
  | inl (t, q) ↦ elim (eq_cases e.target v) [
    | inl (s, r) ↦ subst (λ w. Leads es e.target w) (sym q) (subst (λ w. Leads es w u) (sym r) p)
    | inr (g, ne) ↦ absurd (ground (arith, absent, j, t, g))
  ]
  | inr (f, ne) ↦ absurd (ground (arith, absent, j, f))
]

-- What the loop over the edges returns, with its reason.
pub check_edges-decides :
    (before after : List Edge)
    → (check_edges before after ≡ none)
        × ((u v : String) → Joins after u v → ¬ Leads (before ++ after) v u)
      ⊎ (check_edges before after ≡ some cycle)
        × ((u : String) × (v : String) × Joins after u v × Leads (before ++ after) v u)
unfolding check_edges
check_edges-decides before [] = inl (refl, λ u v j. absurd (omega arith))
check_edges-decides before (e ∷ after) =
    let regroup = append_assoc before (e ∷ []) after in
    elim (would_create_cycle-decides (before ++ after) e.source e.target) [
      | inl (t, p) ↦ rw t (
          inr (
            refl,
            (
              e.source,
              e.target,
              ground (arith, eq_refl e.source, eq_refl e.target),
              Leads-with before e after p,
            ),
          ))
      | inr (f, no_way) ↦ elim (check_edges-decides (before ++ e ∷ []) after) [
        | inl (passed, h) ↦
            rw (f, passed)
              (inl (
                refl,
                λ u v j p. elim (positive_cases (count v (targets after u))) [
                  | inl absent ↦
                      no_way (Leads-without before e after refl (first_edge u v e after absent j p))
                  | inr there ↦ h u v there (subst (λ l. Leads l v u) (sym regroup) p)
                ],
              ))
        | inr (found, (u, v, j, p)) ↦
            rw (f, found)
              (inr (refl, (u, v, ground (arith, j), subst (λ l. Leads l v u) regroup p)))
      ]
    ]

-- The payload of the editor's graph, where its nodes have distinct ids and its edges join nodes.
abbrev pub node_ids : List EditorNode → List String
node_ids = map (λ n. n.id)

abbrev pub IsBetween : List Edge → List String → Type 0
IsBetween es known =
    (u v : String) → Joins es u v → (includes u known ≡ true) × (includes v known ≡ true)

module _ (m : Dict (List String)) where
  pub ids-payload : (nodes : List EditorNode) → ids (map (node_input m) nodes) ≡ node_ids nodes
  ids-payload [] = refl
  ids-payload (n ∷ nodes) = ap (λ l. n.id ∷ l) (ids-payload nodes)

  deps_of-payload :
      (nodes : List EditorNode) (u v : String)
      → IsDistinct (node_ids nodes)
      → count u (deps_of (map (node_input m) nodes) v)
        ≡ (if includes v (node_ids nodes) then count u (get_or (Dict.get m v) []) else 0)
  deps_of-payload [] u v d = refl
  deps_of-payload (n ∷ nodes) u v d =
      let ih = deps_of-payload nodes u v (λ x. omega (arith, d x)) in
      let rest = deps_of (map (node_input m) nodes) v in
      elim (eq_cases n.id v) [
        | inl (t, e) ↦
            let absent : count v (node_ids nodes) ≡ 0 = ground (arith, d v) in
            rw t (
              omega (
                arith,
                ih_absent ih absent,
                count-append u (get_or (Dict.get m n.id) []) rest,
                ap (λ w. count u (get_or (Dict.get m w) [])) e,
              ))
        | inr (f, ne) ↦ rw f ih
      ]
    where
      ih_absent :
          count u (deps_of (map (node_input m) nodes) v)
            ≡ (if includes v (node_ids nodes) then count u (get_or (Dict.get m v) []) else 0)
          → count v (node_ids nodes) ≡ 0
          → count u (deps_of (map (node_input m) nodes) v) ≡ 0
      ih_absent h a = ground (arith, h, includes-true_iff v (node_ids nodes))

-- What a node of the payload depends on are the sources of the edges to it.
pub deps_of-Joins :
    (nodes : List EditorNode) (es : List Edge) (u v : String)
    → IsDistinct (node_ids nodes)
    → count u (deps_of (build_dag_payload nodes es) v)
      ≡ (if includes v (node_ids nodes) then count v (targets es u) else 0)
unfolding build_dag_payload Dict.get
deps_of-Joins nodes es u v d = ground (
  arith,
  deps_of-payload (dependencies [] es) nodes u v d,
  ap (count u) (dependencies-sources [] es v),
  count-sources es u v,
)
