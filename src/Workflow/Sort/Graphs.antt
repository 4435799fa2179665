-- ===== src/Workflow/Sort/Graphs.antt =====
-- What the first loops of `topologicalLayers` build: in-degrees and adjacency are the two sides of
-- one relation, "occurs among the dependencies of".
use ai_task_orchestrator.Base.{
  ap, ℕ, ◌+◌, ◌≡◌, refl, ◌∙◌, ◌≢◌, String, true, List, [], ◌∷◌, ◌++◌, arith, ℤ, pos, succ, succ-pos,
  length, length-append, includes, count, count-append, includes-false_iff, IsDistinct, inl, inr,
  ◌==◌, eq_iff, eq_cases, if◌then◌else◌, Bool-cases,
}
use mathlib.Core.List.{append-nil, append_assoc}
use ai_task_orchestrator.Base.Dict.{get, set, get_or-set}
use ai_task_orchestrator.Base.Result.{ok, ◌>>=◌, >>=-returns, ok-injective}
use ai_task_orchestrator.Workflow.{DagNodeInput, deps, ids, deps_of}
use ai_task_orchestrator.Workflow.Sort.{
  Graph, Degrees, Adjacency, degree, children, collect_ids, init_graph, add_edge, add_edges,
  add_nodes, empty_graph,
}

pub degree-set :
    (m : Degrees) (k v : String) (d : ℤ) → degree (set m k d) v ≡ (if k == v then d else degree m v)
degree-set m k v d = get_or-set m k v d (pos 0)

pub children-set :
    (m : Adjacency) (k v : String) (l : List String)
    → children (set m k l) v ≡ (if k == v then l else children m v)
children-set m k v l = get_or-set m k v l []

-- The set of ids is the list of ids, and no id occurs twice.
pub collect_ids-eq-ok :
    (seen : List String) (nodes : List DagNodeInput) {known : List String}
    → collect_ids seen nodes ≡ ok known
    → IsDistinct seen
    → (known ≡ seen ++ ids nodes) × IsDistinct known
unfolding collect_ids
collect_ids-eq-ok seen [] {known} h d = (cc (append-nil seen), rw (← ok-injective seen known h) d)
collect_ids-eq-ok seen (n ∷ ns) {known} h d = elim (Bool-cases (includes n.id seen)) [
  | inl e ↦ ground arith
  | inr e ↦
      let absent = (includes-false_iff n.id seen).0 e in
      let (same, distinct) =
        collect_ids-eq-ok (seen ++ n.id ∷ []) ns {known = known} (rw (e, collect_ids) at h)
          (λ x. ground (arith, count-append x seen (n.id ∷ []), d x, absent, eq_iff n.id x)) in
      (same ∙ append_assoc seen (n.id ∷ []) (ids ns), distinct)
]

init_graph_lem :
    (v : String) (g : Graph) (nodes : List DagNodeInput)
    → degree g.in_degree v ≡ pos 0
    → children g.adjacency v ≡ []
    → (degree (init_graph g nodes).in_degree v ≡ pos 0)
      × (children (init_graph g nodes).adjacency v ≡ [])
unfolding init_graph
init_graph_lem v g [] hd hc = (hd, hc)
init_graph_lem v g (n ∷ ns) hd hc =
    init_graph_lem v
      (record { in_degree = set g.in_degree n.id (pos 0); adjacency = set g.adjacency n.id [] }) ns
      (ground (arith, degree-set g.in_degree n.id v (pos 0)))
      (ground (arith, children-set g.adjacency n.id v []))

pub add_edge-eq-ok :
    (known : List String) (id : String) (g : Graph) (dep : String) {g' : Graph}
    → add_edge known id g dep ≡ ok g'
    → (dep ≢ id)
      × (includes dep known ≡ true)
      × (g'.in_degree ≡ set g.in_degree id (succ (degree g.in_degree id)))
      × (g'.adjacency ≡ set g.adjacency dep (children g.adjacency dep ++ id ∷ []))
unfolding add_edge
add_edge-eq-ok known id g dep h = ground (arith, eq_iff dep id)

add_edge_lem :
    (known : List String) (id : String) (g : Graph) (dep u v : String) (k : ℕ) {g' : Graph}
    → add_edge known id g dep ≡ ok g'
    → degree g.in_degree v ≡ pos k
    → (degree g'.in_degree v ≡ pos (k + (if id == v then 1 else 0)))
      × (count v (children g'.adjacency u)
          ≡ count v (children g.adjacency u) + (if id == v then if dep == u then 1 else 0 else 0))
add_edge_lem known id g dep u v k {g'} h hd =
    let (_, _, deg, adj) = add_edge-eq-ok known id g dep {g' = g'} h in
    (
      rw deg (elim (eq_cases id v) [
        | inl (t, e) ↦
            rw (degree-set g.in_degree id v (succ (degree g.in_degree id)), t, e, hd, succ-pos)
              (ground arith)
        | inr (f, ne) ↦
            rw (degree-set g.in_degree id v (succ (degree g.in_degree id)), f) (ground arith)
      ]),
      rw (adj, children-set g.adjacency dep u (children g.adjacency dep ++ id ∷ []))
          (elim (eq_cases dep u) [
            | inl (t, e) ↦
                rw (t, e, count-append v (children g.adjacency u) (id ∷ [])) (ground arith)
            | inr (f, ne) ↦ rw f (ground arith)
          ]),
    )

-- The edges of one node.
add_edges-eq-ok :
    (known : List String) (id : String) (g : Graph) (ds : List String) (u v : String) (k : ℕ)
    {g' : Graph}
    → add_edges known id g ds ≡ ok g'
    → degree g.in_degree v ≡ pos k
    → (degree g'.in_degree v ≡ pos (k + (if id == v then length ds else 0)))
      × (count v (children g'.adjacency u)
          ≡ count v (children g.adjacency u) + (if id == v then count u ds else 0))
add_edges-eq-ok known id g [] u v k h hd = unfold add_edges in ground arith
add_edges-eq-ok known id g (dep ∷ ds) u v k {g'} h hd =
    let h' : (add_edge known id g dep >>= λ g₁. add_edges known id g₁ ds) ≡ ok g' =
      unfold add_edges in h in
    let (g₁, e, rest) = >>=-returns (add_edge known id g dep) (λ g₁. add_edges known id g₁ ds) h' in
    let (deg₁, adj₁) = add_edge_lem known id g dep u v k {g' = g₁} e hd in
    let (deg, adj) =
      add_edges-eq-ok known id g₁ ds u v (k + (if id == v then 1 else 0)) {g' = g'} rest deg₁ in
    (deg ∙ ap pos (ground arith), ground arith)

add_nodes-eq-ok :
    (known : List String) (g : Graph) (nodes : List DagNodeInput) (u v : String) (k : ℕ)
    {g' : Graph}
    → add_nodes known g nodes ≡ ok g'
    → degree g.in_degree v ≡ pos k
    → (degree g'.in_degree v ≡ pos (k + length (deps_of nodes v)))
      × (count v (children g'.adjacency u)
          ≡ count v (children g.adjacency u) + count u (deps_of nodes v))
add_nodes-eq-ok known g [] u v k h hd = unfold add_nodes in ground arith
add_nodes-eq-ok known g (n ∷ ns) u v k {g'} h hd =
    let h' : (add_edges known n.id g (deps n) >>= λ g₁. add_nodes known g₁ ns) ≡ ok g' =
      unfold add_nodes in h in
    let (g₁, e, rest) =
      >>=-returns (add_edges known n.id g (deps n)) (λ g₁. add_nodes known g₁ ns) h' in
    let (deg₁, adj₁) = add_edges-eq-ok known n.id g (deps n) u v k {g' = g₁} e hd in
    let (deg, adj) =
      add_nodes-eq-ok known g₁ ns u v (k + (if n.id == v then length (deps n) else 0)) {g' = g'}
        rest deg₁ in
    (
      deg ∙ ap pos (ground (arith, length-append (deps n) (deps_of ns v))),
      ground (arith, count-append u (deps n) (deps_of ns v)),
    )

-- The graph that is built, when no error is thrown.
pub record IsGraphOf (nodes : List DagNodeInput) (g : Graph) : Type 0 where
  pub degrees : (v : String) → degree g.in_degree v ≡ pos (length (deps_of nodes v))
  pub edges : (u v : String) → count v (children g.adjacency u) ≡ count u (deps_of nodes v)

pub add_nodes-IsGraphOf :
    (known : List String) (nodes : List DagNodeInput) (g : Graph)
    → add_nodes known (init_graph empty_graph nodes) nodes ≡ ok g
    → IsGraphOf nodes g
add_nodes-IsGraphOf known nodes g h = record {
  degrees = λ v.
      let (hd, _) = init_graph_lem v empty_graph nodes (unfold get in refl) (unfold get in refl) in
      (add_nodes-eq-ok known (init_graph empty_graph nodes) nodes v v 0 h hd).0
      ∙ ap pos (omega arith);
  edges = λ u v.
      let (hd, _) = init_graph_lem v empty_graph nodes (unfold get in refl) (unfold get in refl) in
      let (_, hc) = init_graph_lem u empty_graph nodes (unfold get in refl) (unfold get in refl) in
      (add_nodes-eq-ok known (init_graph empty_graph nodes) nodes u v 0 h hd).1
      ∙ ap (λ (l : List String). count v l + count u (deps_of nodes v)) hc
      ∙ omega arith;
}
