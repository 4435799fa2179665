-- ===== src/Workflow/Sort/Layers.antt =====
-- The layers that the `while` loop yields, and that it ends.
use mathlib.Core.Path.{ap₂}
use mathlib.Core.List.{append-nil, append_assoc}
use ai_task_orchestrator.Base.{
  ℕ, zero, suc, ◌+◌, ◌≤◌, ◌≡◌, refl, sym, ap, ◌∙◌, String, Bool, true, false, not, ◌&&◌, List, [],
  ◌∷◌, ◌++◌, arith, pos, is_zero, length, length-append, includes, count, missing, count-append,
  missing-nil, includes-true_iff, IsDistinct, inl, inr, eq_cases, if◌then◌else◌, flatten, Option,
  some, eqb, length-le_of_count, length-map,
}
use ai_task_orchestrator.Workflow.{DagNodeInput, ids, deps_of}
use ai_task_orchestrator.Workflow.Sort.{Graph, Degrees, degree, release_frontier, peel, roots}
use ai_task_orchestrator.Workflow.Sort.Graphs.{IsGraphOf}
use ai_task_orchestrator.Workflow.Sort.Rounds.{flag, Inv, release_frontier-Inv}

-- `v` is a node that is not in `seen` while all that it depends on is.
abbrev pub is_due : List DagNodeInput → List String → String → Bool
is_due nodes seen v =
    includes v (ids nodes) && not (includes v seen) && eqb (missing seen (deps_of nodes v)) 0

-- Each layer holds, once each, exactly the nodes that are due after the layers before it.
abbrev pub IsLayering : List DagNodeInput → List String → List (List String) → Type 0
IsLayering nodes seen [] = Unit
IsLayering nodes seen (l ∷ ls) =
    ((v : String) → count v l ≡ (if is_due nodes seen v then 1 else 0))
    × IsLayering nodes (seen ++ l) ls

flag-pos : (known : Bool) (m : ℕ) → flag known (pos m) ≡ (if known && eqb m 0 then 1 else 0)
unfolding is_zero
flag-pos true zero = refl
flag-pos true (suc m) = ground arith
flag-pos false m = refl

-- What the loop returns from `done` on: some more layers, after which no node is due.
pub record Peeled (nodes : List DagNodeInput) (done : List String) (layers : List (List String))
    (processed : ℕ) (result : Option (List (List String) × ℕ)) : Type 0 where
  pub rest : List (List String)
  pub returned : result ≡ some (layers ++ rest, processed + length (flatten rest))
  pub layering : IsLayering nodes done rest
  pub finished : (v : String) → is_due nodes (done ++ flatten rest) v ≡ false
  pub bounded : (v : String) → count v (done ++ flatten rest) ≤ count v (ids nodes)

regroup :
    (layers : List (List String)) (l : List String) (rest : List (List String)) (processed : ℕ)
    → ◌≡◌ {A = Option (List (List String) × ℕ)}
        (some ((layers ++ l ∷ []) ++ rest, processed + length l + length (flatten rest)))
        (some (layers ++ l ∷ rest, processed + length (l ++ flatten rest)))
regroup layers l rest processed =
    ap₂ (λ a b. some (a, b)) (append_assoc layers (l ∷ []) rest)
      (omega (arith, length-append l (flatten rest)))

module _ (nodes : List DagNodeInput) (g : Graph) (is_graph : IsGraphOf nodes g) where
  module _ (done frontier : List String) (deg : Degrees)
      (inv : Inv nodes g is_graph done frontier [] deg) where
    placed_lem :
        (v : String)
        → count v done + count v frontier
          ≡ (if includes v (ids nodes) && eqb (missing done (deps_of nodes v)) 0 then 1 else 0)
    placed_lem v = omega (
      arith,
      inv.placed v,
      ap (flag (includes v (ids nodes))) (inv.counters v),
      flag-pos (includes v (ids nodes)) (missing done (deps_of nodes v)),
    )

    count-frontier : (v : String) → count v frontier ≡ (if is_due nodes done v then 1 else 0)
    count-frontier v = ground (arith, placed_lem v, includes-true_iff v done)

    bounded_lem : (v : String) → count v (done ++ frontier) ≤ count v (ids nodes)
    bounded_lem v =
        ground (arith, placed_lem v, count-append v done frontier, includes-true_iff v (ids nodes))

    next_round :
        Inv nodes g is_graph
          (done ++ frontier)
          (release_frontier g.adjacency deg [] frontier).1
          []
          (release_frontier g.adjacency deg [] frontier).0
    next_round =
        let after = release_frontier-Inv nodes g is_graph done frontier [] deg inv in
        record { counters = after.counters; placed = λ v. omega (arith, after.placed v) }

    length_le : length done + length frontier ≤ length (ids nodes)
    length_le = omega (
      arith,
      length-append done frontier,
      length-le_of_count (done ++ frontier) (ids nodes) bounded_lem,
    )

  -- With fuel for each node that is not placed the loop ends.
  pub peel_lem :
      (fuel : ℕ) (deg : Degrees) (frontier : List String) (layers : List (List String))
      (processed : ℕ) (done : List String)
      → Inv nodes g is_graph done frontier [] deg
      → length (ids nodes) ≤ fuel + length done
      → Peeled nodes done layers processed (peel fuel g.adjacency deg frontier layers processed)
  unfolding peel
  peel_lem fuel deg [] layers processed done inv h = record {
    rest = [];
    returned = ap₂ (λ a b. some (a, b)) (sym (append-nil layers)) (omega arith);
    layering = tt;
    finished = λ v. rw (append-nil done) (ground (arith, count-frontier done [] deg inv v));
    bounded = bounded_lem done [] deg inv;
  }
  peel_lem zero deg (f ∷ fs) layers processed done inv h =
      absurd (omega (arith, length_le done (f ∷ fs) deg inv))
  peel_lem (suc fuel) deg (f ∷ fs) layers processed done inv h =
      let frontier = f ∷ fs in
      let deg' = (release_frontier g.adjacency deg [] frontier).0 in
      let next = (release_frontier g.adjacency deg [] frontier).1 in
      let ih =
        peel_lem fuel deg' next (layers ++ frontier ∷ []) (processed + length frontier)
          (done ++ frontier) (next_round done frontier deg inv)
          (omega (arith, length-append done frontier)) in
      record {
        rest = frontier ∷ ih.rest;
        returned = ih.returned ∙ regroup layers frontier ih.rest processed;
        layering = (count-frontier done frontier deg inv, ih.layering);
        finished = λ v. rw (← append_assoc done frontier (flatten ih.rest)) (ih.finished v);
        bounded = λ v. rw (← append_assoc done frontier (flatten ih.rest)) (ih.bounded v);
      }

  roots_lem :
      (deg : Degrees) (ns : List DagNodeInput) (v : String)
      → count v (roots deg ns) ≡ (if is_zero (degree deg v) then count v (ids ns) else 0)
  roots_lem deg [] v = ground arith
  roots_lem deg (n ∷ ns) v = elim (eq_cases n.id v) [
    | inl (t, e) ↦
        let ih = roots_lem deg ns v in
        let same = ap (λ (w : String). is_zero (degree deg w)) e in ground arith
    | inr (f, ne) ↦ let ih = roots_lem deg ns v in ground arith
  ]

  -- The invariant holds when the loop starts.
  pub Inv-roots :
      IsDistinct (ids nodes) → Inv nodes g is_graph [] (roots g.in_degree nodes) [] g.in_degree
  Inv-roots distinct = record {
    counters = λ v. is_graph.degrees v ∙ ap pos (sym (missing-nil (deps_of nodes v)));
    placed = λ v.
        ground (arith, roots_lem g.in_degree nodes v, distinct v, includes-true_iff v (ids nodes));
  }

  -- So the whole loop, with a unit of fuel for each node.
  pub peel-Peeled :
      IsDistinct (ids nodes)
      → Peeled nodes [] [] 0
          (peel (length nodes) g.adjacency g.in_degree (roots g.in_degree nodes) [] 0)
  peel-Peeled distinct =
      peel_lem (length nodes) g.in_degree (roots g.in_degree nodes) [] 0 [] (Inv-roots distinct)
        (omega (arith, length-map (λ (n : DagNodeInput). n.id) nodes))
