-- ===== src/Workflow/Sort/Dependents.antt =====
-- `buildDependents`: the reverse of the dependencies.
use ai_task_orchestrator.Base.{
  ℕ, ◌+◌, ◌<◌, ◌≡◌, refl, ap, ◌∙◌, String, Bool, true, ◌||◌, List, [], ◌∷◌, ◌++◌, arith, includes,
  count, count-append, inl, inr, ◌==◌, eq_refl, eq_cases, if◌then◌else◌, Option, some, Option-cases,
  is_some,
}
use ai_task_orchestrator.Base.Dict.{get, set, get-set}
use ai_task_orchestrator.Workflow.{DagNodeInput, deps, ids, deps_of}
use ai_task_orchestrator.Workflow.Sort.{
  Adjacency, children, init_dependents, add_dependents, add_all_dependents, build_dependents,
}
use ai_task_orchestrator.Workflow.Sort.Graphs.{children-set}
use ai_task_orchestrator.Workflow.Sort.Outcome.{IsClosed}

abbrev pub present : Adjacency → String → Bool
present m k = is_some (get m k)

-- The map that a loop of `buildDependents` leaves: no key is lost, and `extra` counts what is added.
record Grown (m : Adjacency) (extra : String → String → ℕ) (result : Option Adjacency)
    : Type 0 where
  map : Adjacency
  returned : result ≡ some map
  keys : (k : String) → present m k ≡ true → present map k ≡ true
  added : (u v : String) → count v (children map u) ≡ count v (children m u) + extra u v

present-set :
    (m : Adjacency) (k j : String) (l : List String)
    → present (set m k l) j ≡ (if k == j then true else present m j)
present-set m k j l = ground (arith, get-set m k j l)

one :
    (m : Adjacency) (id d : String) (l : List String)
    → get m d ≡ some l
    → (u v : String) (ds : List String)
    → count v (children (set m d (l ++ id ∷ [])) u) + (if id == v then count u ds else 0)
      ≡ count v (children m u) + (if id == v then count u (d ∷ ds) else 0)
one m id d l e u v ds = elim (eq_cases d u) [
  | inl (t, same) ↦
      rw (children-set m d u (l ++ id ∷ []), t, ← same, e)
        (ground (arith, count-append v l (id ∷ []), eq_refl d))
  | inr (f, ne) ↦ rw (children-set m d u (l ++ id ∷ []), f) (ground arith)
]

init_dependents-keys :
    (m : Adjacency) (nodes : List DagNodeInput) (k : String)
    → (present m k || includes k (ids nodes)) ≡ true
    → present (init_dependents m nodes) k ≡ true
unfolding init_dependents
init_dependents-keys m [] k h = ground arith
init_dependents-keys m (n ∷ ns) k h =
    init_dependents-keys (set m n.id []) ns k (ground (arith, present-set m n.id k []))

init_dependents-empty :
    (m : Adjacency) (nodes : List DagNodeInput) (u : String)
    → children m u ≡ []
    → children (init_dependents m nodes) u ≡ []
unfolding init_dependents
init_dependents-empty m [] u h = h
init_dependents-empty m (n ∷ ns) u h =
    init_dependents-empty (set m n.id []) ns u (ground (arith, children-set m n.id u []))

add_dependents_lem :
    (m : Adjacency) (id : String) (ds : List String)
    → ((u : String) → 0 < count u ds → present m u ≡ true)
    → Grown m (λ u v. if id == v then count u ds else 0) (add_dependents m id ds)
unfolding add_dependents
add_dependents_lem m id [] h = record {
  map = m;
  returned = refl;
  keys = λ k p. p;
  added = λ u v. ground arith;
}
add_dependents_lem m id (d ∷ ds) h = elim (Option-cases (get m d)) [
  | inl e ↦ cc (h d (ground (arith, eq_refl d)), ap is_some e)
  | inr (l, e) ↦
      let m' = set m d (l ++ id ∷ []) in
      let ih =
        add_dependents_lem m' id ds
          (λ u c. ground (arith, present-set m d u (l ++ id ∷ []), h u)) in
      record {
        map = ih.map;
        returned = rw (e, add_dependents) ih.returned;
        keys = λ k p. ih.keys k (ground (arith, present-set m d k (l ++ id ∷ [])));
        added = λ u v. ih.added u v ∙ one m id d l e u v ds;
      }
]

add_all_dependents_lem :
    (m : Adjacency) (nodes : List DagNodeInput)
    → ((u v : String) → 0 < count u (deps_of nodes v) → present m u ≡ true)
    → Grown m (λ u v. count u (deps_of nodes v)) (add_all_dependents m nodes)
unfolding add_all_dependents
add_all_dependents_lem m [] h = record {
  map = m;
  returned = refl;
  keys = λ k p. p;
  added = λ u v. omega arith;
}
add_all_dependents_lem m (n ∷ ns) h =
    let first =
      add_dependents_lem m n.id (deps n) (λ u c.
        h u n.id (ground (arith, eq_refl n.id, count-append u (deps n) (deps_of ns n.id)))) in
    let ih = add_all_dependents_lem first.map ns (λ u v c.
      first.keys u (
        h u v (omega (arith, count-append u (if n.id == v then deps n else []) (deps_of ns v))))) in
    record {
      map = ih.map;
      returned = rw (first.returned, add_all_dependents) ih.returned;
      keys = λ k p. ih.keys k (first.keys k p);
      added = λ u v.
          ground (arith, ih.added u v, first.added u v, count-append u (deps n) (deps_of ns v));
    }

-- If every dependency is a node, `buildDependents` returns a map in which each node `u` lists each
-- text `v` exactly as often as the nodes of the id `v` depend on `u`.
pub build_dependents_lem :
    (nodes : List DagNodeInput)
    → IsClosed nodes
    → (m : Adjacency) × (build_dependents nodes ≡ some m)
      × ((u v : String) → count v (children m u) ≡ count u (deps_of nodes v))
unfolding build_dependents
build_dependents_lem nodes closed =
    let grown =
      add_all_dependents_lem (init_dependents [] nodes) nodes
        (λ u v c. init_dependents-keys [] nodes u (ground (arith, closed u v c))) in
    (
      grown.map,
      grown.returned,
      λ u v.
          grown.added u v
          ∙ ap (λ (l : List String). count v l + count u (deps_of nodes v))
              (init_dependents-empty [] nodes u (unfold get in refl))
          ∙ omega arith,
    )
