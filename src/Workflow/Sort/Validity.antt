-- ===== src/Workflow/Sort/Validity.antt =====
-- The checks of `topologicalLayers` on ids and edges.
use ai_task_orchestrator.Base.{
  ◌≤◌, ◌<◌, ◌≡◌, ◌∙◌, subst, ◌≢◌, ◌⊎◌, String, true, false, List, [], ◌∷◌, ◌++◌, arith, includes,
  count, count-append, includes-false_iff, includes-true_iff, inl, inr, ◌==◌, eq_refl, eq_cases,
  if◌then◌else◌, Bool-cases,
}
use mathlib.Core.List.{append_assoc}
use ai_task_orchestrator.Base.Result.{ok, err, ◌>>=◌, >>=-returns, Result-cases}
use ai_task_orchestrator.Workflow.{DagNodeInput, deps, ids, deps_of}
use ai_task_orchestrator.Workflow.Sort.{
  DagValidationError, duplicate_id, self_loop, unknown_dependency, Graph, collect_ids, add_edge,
  add_edges, add_nodes,
}
use ai_task_orchestrator.Workflow.Sort.Graphs.{add_edge-eq-ok}

-- A good edge does not start and end at one node, and starts at a known node.
abbrev pub IsEdge : List String → String → String → Type 0
IsEdge known id dep = (dep ≢ id) × (includes dep known ≡ true)

add_edges-IsEdge :
    (known : List String) (id : String) (g : Graph) (ds : List String) {g' : Graph}
    → add_edges known id g ds ≡ ok g'
    → (u : String) → 0 < count u ds
    → IsEdge known id u
add_edges-IsEdge known id g [] h u c = absurd (omega arith)
add_edges-IsEdge known id g (d ∷ ds) {g'} h u c =
    let h' : (add_edge known id g d >>= λ g₁. add_edges known id g₁ ds) ≡ ok g' =
      unfold add_edges in h in
    let (g₁, e, rest) = >>=-returns (add_edge known id g d) (λ g₁. add_edges known id g₁ ds) h' in
    let (ne, k, _, _) = add_edge-eq-ok known id g d {g' = g₁} e in
    elim (eq_cases d u) [
      | inl (t, same) ↦ subst (IsEdge known id) same (ne, k)
      | inr (f, differ) ↦ add_edges-IsEdge known id g₁ ds {g' = g'} rest u (ground arith)
    ]

pub add_nodes-IsEdge :
    (known : List String) (g : Graph) (nodes : List DagNodeInput) {g' : Graph}
    → add_nodes known g nodes ≡ ok g'
    → (u v : String) → 0 < count u (deps_of nodes v)
    → IsEdge known v u
add_nodes-IsEdge known g [] h u v c = absurd (omega arith)
add_nodes-IsEdge known g (n ∷ ns) {g'} h u v c =
    let h' : (add_edges known n.id g (deps n) >>= λ g₁. add_nodes known g₁ ns) ≡ ok g' =
      unfold add_nodes in h in
    let (g₁, e, rest) =
      >>=-returns (add_edges known n.id g (deps n)) (λ g₁. add_nodes known g₁ ns) h' in
    let later = add_nodes-IsEdge known g₁ ns {g' = g'} rest u v in
    elim (eq_cases n.id v) [
      | inl (t, same) ↦ elim (Bool-cases (includes u (deps n))) [
        | inl here ↦
            subst (λ w. IsEdge known w u) same
              (add_edges-IsEdge known n.id g (deps n) {g' = g₁} e u
                ((includes-true_iff u (deps n)).0 here))
        | inr there ↦
            later (
              ground (arith, includes-false_iff u (deps n), count-append u (deps n) (deps_of ns v)))
      ]
      | inr (f, differ) ↦ later (ground arith)
    ]

-- What an error about an edge from a dependency of `id` says.
abbrev pub EdgeError : List String → List String → String → DagValidationError → Type 0
EdgeError known ds id e =
    ((e ≡ self_loop id) × (0 < count id ds))
    ⊎ ((d : String) × (e ≡ unknown_dependency id d) × (0 < count d ds) × (includes d known ≡ false))

EdgeError-mono :
    (known ds es : List String) (id : String) (e : DagValidationError)
    → ((u : String) → count u ds ≤ count u es)
    → EdgeError known ds id e
    → EdgeError known es id e
EdgeError-mono known ds es id e h (inl (p, c)) = inl (p, omega (arith, h id))
EdgeError-mono known ds es id e h (inr (d, p, c, f)) = inr (d, p, omega (arith, h d), f)

add_edge-EdgeError :
    (known : List String) (id : String) (g : Graph) (d : String) (e : DagValidationError)
    → add_edge known id g d ≡ err e
    → EdgeError known (d ∷ []) id e
unfolding add_edge
add_edge-EdgeError known id g d e h = elim (eq_cases d id) [
  | inl (t, same) ↦ inl (ground arith, ground arith)
  | inr (f, differ) ↦ inr (d, ground arith, ground (arith, eq_refl d), ground arith)
]

add_edges-EdgeError :
    (known : List String) (id : String) (g : Graph) (ds : List String) (e : DagValidationError)
    → add_edges known id g ds ≡ err e
    → EdgeError known ds id e
unfolding add_edges
add_edges-EdgeError known id g [] e h = absurd (cc)
add_edges-EdgeError known id g (d ∷ ds) e h = elim (Result-cases (add_edge known id g d)) [
  | inl (g', p) ↦
      EdgeError-mono known ds (d ∷ ds) id e (λ u. omega arith)
        (add_edges-EdgeError known id g' ds e (rw p at h))
  | inr (e', p) ↦
      EdgeError-mono known (d ∷ []) (d ∷ ds) id e (λ u. omega arith)
        (add_edge-EdgeError known id g d e (p ∙ (rw p at h)))
]

pub add_nodes-EdgeError :
    (known : List String) (g : Graph) (nodes : List DagNodeInput) (e : DagValidationError)
    → add_nodes known g nodes ≡ err e
    → (id : String) × EdgeError known (deps_of nodes id) id e
unfolding add_nodes
add_nodes-EdgeError known g [] e h = absurd (cc)
add_nodes-EdgeError known g (n ∷ ns) e h = elim (Result-cases (add_edges known n.id g (deps n))) [
  | inl (g', p) ↦
      let (id, later) = add_nodes-EdgeError known g' ns e (rw p at h) in
      (
        id,
        EdgeError-mono known (deps_of ns id) (deps_of (n ∷ ns) id) id e
            (λ u. omega (arith, count-append u (if n.id == id then deps n else []) (deps_of ns id)))
            later,
      )
  | inr (e', p) ↦ (
    n.id,
    EdgeError-mono known (deps n) (deps_of (n ∷ ns) n.id) n.id e
        (λ u. ground (arith, eq_refl n.id, count-append u (deps n) (deps_of ns n.id)))
        (add_edges-EdgeError known n.id g (deps n) e (p ∙ (rw p at h))),
  )
]

-- The check for duplicates: it throws the first id that stands for two nodes, and only then.
pub collect_ids-eq-err :
    (seen : List String) (nodes : List DagNodeInput) (e : DagValidationError)
    → collect_ids seen nodes ≡ err e
    → (id : String) × (e ≡ duplicate_id id) × (2 ≤ count id (seen ++ ids nodes))
unfolding collect_ids
collect_ids-eq-err seen [] e h = absurd (cc)
collect_ids-eq-err seen (n ∷ ns) e h = elim (Bool-cases (includes n.id seen)) [
  | inl t ↦ (
    n.id,
    ground arith,
    ground
        (arith, includes-true_iff n.id seen, count-append n.id seen (n.id ∷ ids ns), eq_refl n.id),
  )
  | inr f ↦
      let (id, p, twice) = collect_ids-eq-err (seen ++ n.id ∷ []) ns e (rw f at h) in
      (id, p, rw append_assoc at twice)
]
