-- ===== src/Workflow/Sort.antt =====
-- libs/workflow/src/topological-sort.ts: Kahn's algorithm in layers, and the reverse adjacency.
-- A map's missing key: `inDegree.get(k)! - 1` is NaN and never `=== 0`; the 0 that is read here
-- falls to -1, which is not 0 either. The keys that are read are always there (see `Degrees`).
pub mod Graphs
pub mod Rounds
pub mod Layers
pub mod Validity
pub mod Outcome
pub mod Correct
pub mod Dependents
use ai_task_orchestrator.Base.{
  ℕ, zero, suc, ◌+◌, String, Bool, true, false, not, List, [], ◌∷◌, ◌++◌, map, Option, none, some,
  ℤ, pos, pred, succ, is_zero, length, select, includes, get_or, eqb, ◌==◌, if◌then◌else◌,
}
use ai_task_orchestrator.Base.Dict.{Dict, get, set}
use ai_task_orchestrator.Base.Result.{Result, ok, err, ◌>>=◌}
use ai_task_orchestrator.Workflow.{DagNodeInput, deps}

-- The messages of `DagValidationError`. `diverges` is no error of the program: it says that the
-- fuel of the loop ran out.
pub data DagValidationError : Type 0 where
  no_nodes : DagValidationError
  duplicate_id : (id : String) → DagValidationError
  self_loop : (id : String) → DagValidationError
  unknown_dependency : (id dep : String) → DagValidationError
  cycle diverges : DagValidationError

abbrev pub Degrees : Type 0
Degrees = Dict ℤ

abbrev pub Adjacency : Type 0
Adjacency = Dict (List String)

-- `inDegree.get(k)!`
abbrev pub degree : Degrees → String → ℤ
degree d k = get_or (get d k) (pos 0)

-- `adjacency.get(k)!`
abbrev pub children : Adjacency → String → List String
children a k = get_or (get a k) []

-- The first loop: the set of ids.
unfoldable pub collect_ids :
    List String → List DagNodeInput → Result DagValidationError (List String)
collect_ids seen [] = ok seen
collect_ids seen (n ∷ ns) =
    if includes n.id seen then err (duplicate_id n.id) else collect_ids (seen ++ n.id ∷ []) ns

pub record Graph : Type 0 where
  pub in_degree : Degrees
  pub adjacency : Adjacency

-- The second loop: both maps start empty at each node.
unfoldable pub init_graph : Graph → List DagNodeInput → Graph
init_graph g [] = g
init_graph g (n ∷ ns) =
    init_graph
      (record { in_degree = set g.in_degree n.id (pos 0); adjacency = set g.adjacency n.id [] }) ns

-- The third loop: one edge from `dep` to the node `id`, or the error.
unfoldable pub add_edge : List String → String → Graph → String → Result DagValidationError Graph
add_edge known id g dep =
    if dep == id
    then err (self_loop id)
    else if not (includes dep known)
    then err (unknown_dependency id dep)
    else ok (record {
      in_degree = set g.in_degree id (succ (degree g.in_degree id));
      adjacency = set g.adjacency dep (children g.adjacency dep ++ id ∷ []);
    })

unfoldable pub add_edges :
    List String → String → Graph → List String → Result DagValidationError Graph
add_edges known id g [] = ok g
add_edges known id g (dep ∷ ds) = add_edge known id g dep >>= λ g'. add_edges known id g' ds

unfoldable pub add_nodes : List String → Graph → List DagNodeInput → Result DagValidationError Graph
add_nodes known g [] = ok g
add_nodes known g (n ∷ ns) = add_edges known n.id g (deps n) >>= λ g'. add_nodes known g' ns

-- The body of the `while` loop: `for child of adjacency.get(id)`, then `for id of frontier`.
unfoldable pub release_children : Degrees → List String → List String → Degrees × List String
release_children deg next [] = (deg, next)
release_children deg next (c ∷ cs) =
    let d = pred (degree deg c) in
    release_children (set deg c d) (if is_zero d then next ++ c ∷ [] else next) cs

unfoldable pub release_frontier :
    Adjacency → Degrees → List String → List String → Degrees × List String
release_frontier adj deg next [] = (deg, next)
release_frontier adj deg next (id ∷ rest) =
    let (deg', next') = release_children deg next (children adj id) in
    release_frontier adj deg' next' rest

-- The `while` loop, a unit of fuel for each round. The layers come with the count `processed`.
unfoldable pub peel :
    ℕ → Adjacency → Degrees → List String → List (List String) → ℕ → Option (List (List String) × ℕ)
peel fuel adj deg [] layers processed = some (layers, processed)
peel zero adj deg (f ∷ fs) layers processed = none
peel (suc fuel) adj deg (f ∷ fs) layers processed =
    let frontier = f ∷ fs in
    let (deg', next) = release_frontier adj deg [] frontier in
    peel fuel adj deg' next (layers ++ frontier ∷ []) (processed + length frontier)

abbrev pub roots : Degrees → List DagNodeInput → List String
roots deg nodes = map (λ n. n.id) (select (λ n. is_zero (degree deg n.id)) nodes)

unfoldable pub check_processed :
    List DagNodeInput
    → Option (List (List String) × ℕ)
    → Result DagValidationError (List (List String))
check_processed nodes none = err diverges
check_processed nodes (some (layers, processed)) =
    if eqb processed (length nodes) then ok layers else err cycle

abbrev pub empty_graph : Graph
empty_graph = record { in_degree = []; adjacency = [] }

unfoldable pub topological_layers :
    List DagNodeInput → Result DagValidationError (List (List String))
topological_layers [] = err no_nodes
topological_layers (n ∷ ns) =
    let nodes = n ∷ ns in
    collect_ids [] nodes >>= λ known. add_nodes known (init_graph empty_graph nodes) nodes >>= λ g.
    check_processed nodes
      (peel (length nodes) g.adjacency g.in_degree (roots g.in_degree nodes) [] 0)

-- buildDependents. `none` is the TypeError of `dependents.get(dep)!.push` at a missing key.
unfoldable pub init_dependents : Adjacency → List DagNodeInput → Adjacency
init_dependents m [] = m
init_dependents m (n ∷ ns) = init_dependents (set m n.id []) ns

unfoldable pub add_dependents : Adjacency → String → List String → Option Adjacency
add_dependents m id [] = some m
add_dependents m id (dep ∷ ds) = elim (get m dep) [
  | none ↦ none
  | some l ↦ add_dependents (set m dep (l ++ id ∷ [])) id ds
]

unfoldable pub add_all_dependents : Adjacency → List DagNodeInput → Option Adjacency
add_all_dependents m [] = some m
add_all_dependents m (n ∷ ns) = elim (add_dependents m n.id (deps n)) [
  | none ↦ none
  | some m' ↦ add_all_dependents m' ns
]

unfoldable pub build_dependents : List DagNodeInput → Option Adjacency
build_dependents nodes = add_all_dependents (init_dependents [] nodes) nodes
