-- ===== src/Client/Drawing.antt =====
-- Where `buildGraph` draws the nodes of a DAG that the API has accepted.
use mathlib.Core.List.{Memᴰ}
use ai_task_orchestrator.Base.{
  ℕ, suc, ◌+◌, ◌-◌, ◌*◌, ◌≤◌, ◌<◌, ◌≡◌, ap, ◌∙◌, String, true, false, List, [], ◌∷◌, ◌++◌, Option,
  arith, count, count-append, includes, includes-true_iff, includes-append, IsDistinct, length,
  flatten, inl, inr, ◌⊎◌, eq_refl, ◌==◌,
}
use ai_task_orchestrator.Base.Dict.{Dict}
use ai_task_orchestrator.Base.Result.{ok}
use ai_task_orchestrator.Workflow.{NodeStatus, DagNodeInput, deps_of}
use ai_task_orchestrator.Workflow.Sort.{topological_layers}
use ai_task_orchestrator.Workflow.Sort.Correct.{
  topological_layers-IsLayering, layer_of, layer_of-IsRanked,
}
use ai_task_orchestrator.Client.Polling.{DagStatus}
use ai_task_orchestrator.Client.Graph.{
  GraphNode, col_w, row_h, tallest, layer_nodes, all_nodes, status_map, build_graph,
}

either_part : {A : Type 0} (a : A) (xs ys : List A) → Memᴰ a (xs ++ ys) → Memᴰ a xs ⊎ Memᴰ a ys
either_part a [] ys m = inr m
either_part a (x ∷ xs) ys (Memᴰ.head e) = inl (Memᴰ.head e)
either_part a (x ∷ xs) ys (Memᴰ.tail m) = elim (either_part a xs ys m) [
  | inl k ↦ inl (Memᴰ.tail k)
  | inr k ↦ inr k
]

module _ (status_of : Dict NodeStatus) (selected : Option String) where
  layer_lem :
      (col off row : ℕ) (l : List String) (g : GraphNode)
      → Memᴰ g (layer_nodes status_of selected col off row l)
      → (includes g.id l ≡ true)
        × (g.x ≡ col * col_w)
        × (g.double_y + 2 * row_h ≤ off + 2 * ((row + length l) * row_h))
  layer_lem col off row [] g m = elim m [ ]
  layer_lem col off row (id ∷ l) g (Memᴰ.head e) = (
    ground (arith, ap (λ n. n.id) e, eq_refl id, ap (λ n. id == n.id) e),
    ap (λ n. n.x) e,
    omega (arith, ap (λ n. n.double_y) e),
  )
  layer_lem col off row (id ∷ l) g (Memᴰ.tail m) =
      let (known, x, y) = layer_lem col off (suc row) l g m in
      (ground (arith, known), x, omega arith)

  all_lem :
      (high col : ℕ) (ls : List (List String)) (g : GraphNode)
      → IsDistinct (flatten ls)
      → tallest ls ≤ high
      → Memᴰ g (all_nodes status_of selected high col ls)
      → (includes g.id (flatten ls) ≡ true)
        × (g.x ≡ (col + layer_of ls g.id) * col_w)
        × (g.double_y + 2 * row_h ≤ 2 * (high * row_h))
  all_lem high col [] g d h m = elim m [ ]
  all_lem high col (l ∷ ls) g d h m =
      elim (either_part g (layer_nodes status_of selected col ((high - length l) * row_h) 0 l)
        (all_nodes status_of selected high (suc col) ls) m) [
          | inl here ↦
              let (known, x, y) = layer_lem col ((high - length l) * row_h) 0 l g here in
              (
                ground (arith, known, includes-append g.id l (flatten ls)),
                rw known (x ∙ ap (λ k. k * col_w) (omega arith)),
                ground (arith, y, h),
              )
          | inr there ↦
              let (known, x, y) =
                all_lem high (suc col) ls g (λ v. omega (arith, d v, count-append v l (flatten ls)))
                  (ground (arith, h)) there in
              let apart : includes g.id l ≡ false = ground (
                arith,
                d g.id,
                count-append g.id l (flatten ls),
                (includes-true_iff g.id (flatten ls)).0 known,
                includes-true_iff g.id l,
              ) in
              (
                ground (arith, known, includes-append g.id l (flatten ls)),
                rw apart (x ∙ ap (λ k. k * col_w) (omega arith)),
                y,
              )
        ]

-- Take layers that `topologicalLayers` accepts, and a status of the DAG with these layers. Each node
-- that `buildGraph` draws lies between the top and the height of the longest layer, and of two drawn
-- nodes of which one depends on the other, the former stands at least a column further right.
pub build_graph-columns :
    (nodes : List DagNodeInput) (dag : DagStatus) (selected : Option String) (a b : GraphNode)
    → topological_layers nodes ≡ ok dag.meta.layers
    → Memᴰ a (build_graph dag selected).0
    → Memᴰ b (build_graph dag selected).0
    → (a.double_y + 2 * row_h ≤ 2 * (tallest dag.meta.layers * row_h))
      × (0 < count a.id (deps_of nodes b.id) → a.x + col_w ≤ b.x)
unfolding build_graph
build_graph-columns nodes dag selected a b h m m' =
    let layers = dag.meta.layers in
    let (distinct, same, _) = topological_layers-IsLayering nodes layers h in
    let once : IsDistinct (flatten layers) = λ v. omega (arith, distinct v, same v) in
    let status_of = status_map [] dag.nodes in
    let (_, x, y) = all_lem status_of selected (tallest layers) 0 layers a once (omega arith) m in
    let (_, x', _) = all_lem status_of selected (tallest layers) 0 layers b once (omega arith) m' in
    (y, λ c. omega (arith, x, x', layer_of-IsRanked nodes layers h a.id b.id c))
