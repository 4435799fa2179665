-- ===== src/Workflow/Sort/Correct.antt =====
-- `topologicalLayers` as a whole: what it returns, when it returns, and what each error means.
use ai_task_orchestrator.Base.{
  ℕ, suc, ◌<◌, ◌≡◌, refl, sym, ◌∙◌, subst, ◌≢◌, String, true, false, List, [], ◌∷◌, ◌++◌, arith,
  length, length-map, includes, count, missing, includes-true_iff, includes-append,
  includes_of_missing, IsDistinct, SameItems, inl, inr, if◌then◌else◌, Bool-cases, flatten, eqb,
  length-le_of_count, count-eq_of_length,
}
use ai_task_orchestrator.Base.Result.{ok, err, Result-cases, ok-injective, err-injective}
use ai_task_orchestrator.Workflow.{DagNodeInput, ids, deps_of}
use ai_task_orchestrator.Workflow.Sort.{
  DagValidationError, no_nodes, duplicate_id, self_loop, unknown_dependency, cycle, diverges,
  topological_layers,
}
use ai_task_orchestrator.Workflow.Sort.Rounds.{known_of_dep}
use ai_task_orchestrator.Workflow.Sort.Layers.{IsLayering}
use ai_task_orchestrator.Workflow.Sort.Outcome.{
  IsRanked, IsClosed, Explains, Run, outcome, length-le_done,
}

-- If `topologicalLayers` returns layers, the ids of the nodes are distinct, the layers hold each of
-- them exactly once and nothing else, and each layer holds exactly the nodes that are in no layer
-- before it while all of their dependencies are.
pub topological_layers-IsLayering :
    (nodes : List DagNodeInput) (layers : List (List String))
    → topological_layers nodes ≡ ok layers
    → IsDistinct (ids nodes) × SameItems (flatten layers) (ids nodes) × IsLayering nodes [] layers
topological_layers-IsLayering nodes layers h = elim (outcome nodes) [
  | inl run ↦
      let full = run_ok run in
      (
        run.distinct,
        subst (λ ls. SameItems (flatten ls) (ids nodes)) full.0
            (count-eq_of_length (flatten run.layers) (ids nodes) run.bounded
              (omega (arith, full.1, length-map (λ (n : DagNodeInput). n.id) nodes))),
        subst (IsLayering nodes []) full.0 run.layering,
      )
  | inr (e, p, _) ↦ absurd (cc)
]
  where
    run_ok :
        (run : Run nodes (topological_layers nodes))
        → (run.layers ≡ layers) × (length (flatten run.layers) ≡ length nodes)
    run_ok run =
        let all = eqb (length (flatten run.layers)) (length nodes) in
        elim (Bool-cases all) [
          | inl t ↦ (ok-injective run.layers layers (sym (rw t at run.returned) ∙ h), ground arith)
          | inr f ↦ absurd (cc (rw f at run.returned))
        ]

-- If `topologicalLayers` throws, the error says the truth: there is no node; or two nodes have the
-- id that is named; or a node of that id depends on itself; or it depends on a text that is no id;
-- or there is a cycle, that is, no numbering of the texts puts each dependency below its node. The
-- fuel of the loop never runs out.
pub topological_layers-Explains :
    (nodes : List DagNodeInput) (e : DagValidationError)
    → topological_layers nodes ≡ err e
    → Explains nodes e
topological_layers-Explains nodes e h = elim (outcome nodes) [
  | inl run ↦ subst (Explains nodes) (run_err run) (acyclic_fails run)
  | inr (e', p, why) ↦ subst (Explains nodes) (err-injective e' e (sym p ∙ h)) why
]
  where
    not_all :
        (run : Run nodes (topological_layers nodes))
        → eqb (length (flatten run.layers)) (length nodes) ≡ false
    not_all run = elim (Bool-cases (eqb (length (flatten run.layers)) (length nodes))) [
      | inl t ↦ absurd (cc (rw t at run.returned))
      | inr f ↦ f
    ]

    run_err : (run : Run nodes (topological_layers nodes)) → cycle ≡ e
    run_err run = err-injective cycle e (sym (rw (not_all run) at run.returned) ∙ h)

    acyclic_fails : (run : Run nodes (topological_layers nodes)) → Explains nodes cycle
    acyclic_fails run rank ranked =
        let most = length-le_of_count (flatten run.layers) (ids nodes) run.bounded in
        let least =
          length-le_done nodes rank ranked (λ u v c. (run.edge u v c).1) (flatten run.layers)
            run.finished run.distinct in
        let differ = not_all run in
        let same = length-map (λ (n : DagNodeInput). n.id) nodes in ground arith

-- On nodes with distinct ids, whose dependencies are ids and can be numbered such that each one
-- lies below its node, `topologicalLayers` returns layers.
pub topological_layers-returns :
    (n : DagNodeInput) (ns : List DagNodeInput) (rank : String → ℕ)
    → IsDistinct (ids (n ∷ ns))
    → IsClosed (n ∷ ns)
    → IsRanked rank (n ∷ ns)
    → (layers : List (List String)) × (topological_layers (n ∷ ns) ≡ ok layers)
topological_layers-returns n ns rank distinct closed ranked =
    elim (Result-cases (topological_layers (n ∷ ns))) [
      | inl found ↦ found
      | inr (e, h) ↦ absurd (refute e (topological_layers-Explains (n ∷ ns) e h))
    ]
  where
    refute : (e : DagValidationError) → ¬ Explains (n ∷ ns) e
    refute no_nodes why = cc
    refute (duplicate_id id) why = omega (arith, distinct id)
    refute (self_loop id) why = omega (arith, ranked id id why)
    refute (unknown_dependency id dep) why = cc (closed dep id why.0)
    refute cycle why = why rank ranked
    refute diverges why = why

-- The number of the first layer that holds `v`.
abbrev pub layer_of : List (List String) → String → ℕ
layer_of [] v = 0
layer_of (l ∷ ls) v = if includes v l then 0 else suc (layer_of ls v)

layer_of-lt :
    (nodes : List DagNodeInput) (seen : List String) (layers : List (List String)) (u v : String)
    → IsLayering nodes seen layers
    → 0 < count u (deps_of nodes v)
    → includes v (flatten layers) ≡ true
    → includes u seen ≡ false
    → layer_of layers u < layer_of layers v
layer_of-lt nodes seen [] u v h c k absent = cc
layer_of-lt nodes seen (l ∷ ls) u v h c k absent = elim (Bool-cases (includes v l)) [
  | inl t ↦
      let none_missing : missing seen (deps_of nodes v) ≡ 0 =
        ground (arith, h.0 v, includes-true_iff v l) in
      let there = includes_of_missing u seen (deps_of nodes v) none_missing c in cc
  | inr f ↦ elim (Bool-cases (includes u l)) [
    | inl t ↦ rw (f, t) (omega arith)
    | inr g ↦
        let ih =
          layer_of-lt nodes (seen ++ l) ls u v h.1 c
            (ground (arith, includes-append v l (flatten ls)))
            (ground (arith, includes-append u seen l)) in
        rw (f, g) (omega arith)
  ]
]

-- If `topologicalLayers` returns layers, each node stands in a later layer than each node that it
-- depends on; so the graph has no cycle.
pub layer_of-IsRanked :
    (nodes : List DagNodeInput) (layers : List (List String))
    → topological_layers nodes ≡ ok layers
    → IsRanked (layer_of layers) nodes
layer_of-IsRanked nodes layers h u v c =
    let (_, same, layering) = topological_layers-IsLayering nodes layers h in
    layer_of-lt nodes [] layers u v layering c
      (ground (
        arith,
        same v,
        known_of_dep nodes u v c,
        includes-true_iff v (ids nodes),
        includes-true_iff v (flatten layers),
      ))
      refl

ok_not_err : (layers : List (List String)) (e : DagValidationError) → ok layers ≢ err e
ok_not_err layers e h = cc

-- What passes the checks depends on its own nodes only.
pub topological_layers-IsClosed :
    (nodes : List DagNodeInput) (layers : List (List String))
    → topological_layers nodes ≡ ok layers
    → IsClosed nodes
topological_layers-IsClosed nodes layers h u v c = elim (outcome nodes) [
  | inl run ↦ (run.edge u v c).1
  | inr (e, p, _) ↦ absurd (ok_not_err layers e (sym h ∙ p))
]
