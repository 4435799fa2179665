-- ===== src/Workflow/Sort/Outcome.antt =====
-- The steps of `topologicalLayers`, put together: a run that throws, or that comes through the loop.
use ai_task_orchestrator.Base.{
  ℕ, zero, suc, ◌≤◌, ◌<◌, ◌≡◌, refl, sym, ap, subst, ◌⊎◌, String, true, false, List, [], ◌∷◌, arith,
  length, length-map, includes, count, missing, includes-true_iff, IsDistinct, inl, inr, eq_refl,
  if◌then◌else◌, Bool-cases, flatten, eqb, length-le_of_count,
}
use ai_task_orchestrator.Base.Result.{Result, ok, err, ◌>>=◌, Result-cases}
use ai_task_orchestrator.Workflow.{DagNodeInput, ids, deps_of}
use ai_task_orchestrator.Workflow.Sort.{
  DagValidationError, no_nodes, duplicate_id, self_loop, unknown_dependency, cycle, diverges, Graph,
  collect_ids, add_nodes, init_graph, empty_graph, peel, roots, check_processed, topological_layers,
}
use ai_task_orchestrator.Workflow.Sort.Graphs.{collect_ids-eq-ok, add_nodes-IsGraphOf}
use ai_task_orchestrator.Workflow.Sort.Layers.{is_due, IsLayering, peel-Peeled}
use ai_task_orchestrator.Workflow.Sort.Validity.{
  IsEdge, EdgeError, add_nodes-IsEdge, add_nodes-EdgeError, collect_ids-eq-err,
}

-- `rank` falls from every node to each of its dependencies, so the graph has no cycle.
abbrev pub IsRanked : (String → ℕ) → List DagNodeInput → Type 0
IsRanked rank nodes = (u v : String) → 0 < count u (deps_of nodes v) → rank u < rank v

-- Every dependency is a node.
abbrev pub IsClosed : List DagNodeInput → Type 0
IsClosed nodes = (u v : String) → 0 < count u (deps_of nodes v) → includes u (ids nodes) ≡ true

-- A missing entry of a list can be found.
missing_witness :
    (done ds : List String)
    → 0 < missing done ds
    → (d : String) × (0 < count d ds) × (includes d done ≡ false)
missing_witness done [] h = absurd (omega arith)
missing_witness done (d ∷ ds) h = elim (Bool-cases (includes d done)) [
  | inl t ↦ let (e, c, absent) = missing_witness done ds (ground arith) in (e, omega arith, absent)
  | inr f ↦ (d, ground (arith, eq_refl d), f)
]

module _ (nodes : List DagNodeInput) (rank : String → ℕ) (ranked : IsRanked rank nodes)
    (closed : IsClosed nodes) (done : List String)
    (finished : (v : String) → is_due nodes done v ≡ false) where
  -- If no node is due, none of an acyclic graph is left.
  none_left :
      (bound : ℕ) (v : String)
      → rank v < bound
      → includes v (ids nodes) ≡ true
      → includes v done ≡ true
  none_left zero v h k = absurd (omega arith)
  none_left (suc bound) v h k = elim (Bool-cases (includes v done)) [
    | inl t ↦ t
    | inr f ↦
        let (d, dep, absent) =
          missing_witness done (deps_of nodes v) (ground (arith, finished v)) in
        let present = none_left bound d (omega (arith, ranked d v dep)) (closed d v dep) in cc
  ]

  pub length-le_done : IsDistinct (ids nodes) → length nodes ≤ length done
  length-le_done distinct = omega (
    arith,
    length-map (λ (n : DagNodeInput). n.id) nodes,
    length-le_of_count (ids nodes) done (λ v. ground (
      arith,
      distinct v,
      includes-true_iff v (ids nodes),
      includes-true_iff v done,
      none_left (suc (rank v)) v,
    )),
  )

-- What each error says of the nodes. `diverges` is never the outcome.
abbrev pub Explains : List DagNodeInput → DagValidationError → Type 0
Explains nodes no_nodes = nodes ≡ []
Explains nodes (duplicate_id id) = 2 ≤ count id (ids nodes)
Explains nodes (self_loop id) = 0 < count id (deps_of nodes id)
Explains nodes (unknown_dependency id dep) =
    (0 < count dep (deps_of nodes id)) × (includes dep (ids nodes) ≡ false)
Explains nodes cycle = (rank : String → ℕ) → ¬ IsRanked rank nodes
Explains nodes diverges = ⊥

-- A run that passes the checks and comes through the loop.
pub record Run (nodes : List DagNodeInput) (result : Result DagValidationError (List (List String)))
    : Type 0 where
  pub distinct : IsDistinct (ids nodes)
  pub edge : (u v : String) → 0 < count u (deps_of nodes v) → IsEdge (ids nodes) v u
  pub layers : List (List String)
  pub layering : IsLayering nodes [] layers
  pub finished : (v : String) → is_due nodes (flatten layers) v ≡ false
  pub bounded : (v : String) → count v (flatten layers) ≤ count v (ids nodes)
  pub returned :
      result ≡ (if eqb (length (flatten layers)) (length nodes) then ok layers else err cycle)

abbrev pub Outcome : List DagNodeInput → Result DagValidationError (List (List String)) → Type 0
Outcome nodes result =
    Run nodes result ⊎ ((e : DagValidationError) × (result ≡ err e) × Explains nodes e)

Explains-EdgeError :
    (nodes : List DagNodeInput) (id : String) (e : DagValidationError)
    → EdgeError (ids nodes) (deps_of nodes id) id e
    → Explains nodes e
Explains-EdgeError nodes id e (inl (p, c)) = subst (Explains nodes) (sym p) c
Explains-EdgeError nodes id e (inr (d, p, c, f)) = subst (Explains nodes) (sym p) (c, f)

module _ (nodes : List DagNodeInput) where
  abbrev sort_from : List String → Result DagValidationError (List (List String))
  sort_from known = add_nodes known (init_graph empty_graph nodes) nodes >>= λ g.
      check_processed nodes
        (peel (length nodes) g.adjacency g.in_degree (roots g.in_degree nodes) [] 0)

  loop_outcome :
      (g : Graph)
      → IsDistinct (ids nodes)
      → add_nodes (ids nodes) (init_graph empty_graph nodes) nodes ≡ ok g
      → Run nodes (
          check_processed nodes
            (peel (length nodes) g.adjacency g.in_degree (roots g.in_degree nodes) [] 0))
  unfolding check_processed
  loop_outcome g distinct e =
      let p = peel-Peeled nodes g (add_nodes-IsGraphOf (ids nodes) nodes g e) distinct in
      record {
        distinct = distinct;
        edge = add_nodes-IsEdge (ids nodes) (init_graph empty_graph nodes) nodes {g' = g} e;
        layers = p.rest;
        layering = p.layering;
        finished = p.finished;
        bounded = p.bounded;
        returned =
            rw p.returned
              (ap (λ (n : ℕ). if eqb n (length nodes) then ok p.rest else err cycle) (omega arith));
      }

  edges-Outcome : IsDistinct (ids nodes) → Outcome nodes (sort_from (ids nodes))
  edges-Outcome distinct =
      elim (Result-cases (add_nodes (ids nodes) (init_graph empty_graph nodes) nodes)) [
        | inl (g, e) ↦ inl (rw e (loop_outcome g distinct e))
        | inr (e, h) ↦
            let (id, why) =
              add_nodes-EdgeError (ids nodes) (init_graph empty_graph nodes) nodes e h in
            inr (e, rw h, Explains-EdgeError nodes id e why)
      ]

  ids-Outcome : Outcome nodes (collect_ids [] nodes >>= sort_from)
  ids-Outcome = elim (Result-cases (collect_ids [] nodes)) [
    | inl (known, e) ↦
        let (same, distinct) = collect_ids-eq-ok [] nodes {known = known} e (λ x. omega arith) in
        rw (e, same) (edges-Outcome (rw same at distinct))
    | inr (e, h) ↦
        let (id, p, twice) = collect_ids-eq-err [] nodes e h in
        inr (e, rw h, subst (Explains nodes) (sym p) twice)
  ]

pub outcome : (nodes : List DagNodeInput) → Outcome nodes (topological_layers nodes)
unfolding topological_layers
outcome [] = inr (no_nodes, refl, refl)
outcome (n ∷ ns) = ids-Outcome (n ∷ ns)
