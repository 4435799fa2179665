-- ===== src/Workflow/Coordinator/Progress.antt =====
-- Which nodes a completion makes ready.
use ai_task_orchestrator.Base.{
  ℕ, ◌+◌, ◌<◌, ◌≡◌, sym, ap, ◌∙◌, subst, ◌≢◌, String, true, ◌&&◌, List, [], ◌∷◌, ◌++◌, arith,
  includes, count, missing, missing-snoc, missing-nil, inl, inr, if◌then◌else◌, Bool-cases, Option,
  some, pos, eqb, ltb, length,
}
use ai_task_orchestrator.Base.Json.{Json}
use ai_task_orchestrator.Workflow.{DagNodeInput, deps, ids, deps_of}
use ai_task_orchestrator.Workflow.Sort.{children}
use ai_task_orchestrator.Workflow.Sort.Rounds.{known_of_dep}
use ai_task_orchestrator.Workflow.Store.{
  Redis, nodes, dependents, results, statuses, Location, remaining, entry, node_json, names_json,
  number,
}
use ai_task_orchestrator.Workflow.Coordinator.{
  ttl_seconds, as_node, get_node, find_ready, store_result, mark_complete_and_find_ready,
}
use ai_task_orchestrator.Workflow.Coordinator.Persist.{Persisted}
use ai_task_orchestrator.Workflow.Coordinator.Countdown.{
  HasNode, HasNode-keep, CountedDown, find_ready-CountedDown,
}

-- 1 if the completion of `u` brings the last of what `v` depends on, after `done` and `u`.
abbrev pub released_by : List DagNodeInput → List String → String → String → ℕ
released_by ns done u v =
    if ltb 0 (count u (deps_of ns v)) && eqb (missing (done ++ u ∷ []) (deps_of ns v)) 0
    then 1
    else 0

module _ (r : Redis) (dag : String) (ns : List DagNodeInput) where
  open r use {Store, get, set, expire, get-set_self, get-set_ne, get-expire}

  -- The keys of the DAG say of each node how many of its dependencies are not among `done`.
  pub record Tracks (s : Store) (done : List String) : Type 0 where
    pub left :
        (v : String)
        → includes v (ids ns) ≡ true
        → get s (remaining dag v) ≡ some (number (pos (missing done (deps_of ns v))))
    pub list :
        (u : String)
        → includes u (ids ns) ≡ true
        → (l : List String) × (get s (entry dependents dag u) ≡ some (names_json l))
          × ((v : String) → count v l ≡ count u (deps_of ns v))
    pub node : (v : String) → includes v (ids ns) ≡ true → HasNode r dag s v

  store_result-apart :
      (s : Store) (u : String) (result : Json) (b : Location)
      → entry results dag u ≢ b
      → entry statuses dag u ≢ b
      → get (store_result r s dag u result) b ≡ get s b
  unfolding store_result
  store_result-apart s u result b h₁ h₂ =
      get-set_ne _ (entry statuses dag u) b _ h₂
      ∙ get-expire _ results dag ttl_seconds b
      ∙ get-set_ne s (entry results dag u) b _ h₁

  pub Persisted-Tracks :
      (s : Store) (result : Option Store) (p : Persisted r dag ns result) → Tracks p.store []
  unfolding get_node
  Persisted-Tracks s result p = record {
    left = λ v h.
        let (n, e, held, same) = p.held v h in
        subst (λ w. get p.store (remaining dag w) ≡ some (number (pos (length (deps n))))) e
          held.left
        ∙ ap (λ (m : ℕ). some (number (pos m)))
            (ap length (sym same) ∙ sym (missing-nil (deps_of ns v)));
    list = λ u h.
        let (n, e, held, same) = p.held u h in
        (
          children p.map u,
          subst (λ w. get p.store (entry dependents dag w) ≡ some (names_json (children p.map w))) e
              held.list,
          p.reverse u,
        );
    node = λ v h.
        let (n, e, held, same) = p.held v h in
        (
          n,
          ap as_node
              (subst (λ w. get p.store (entry nodes dag w) ≡ some (node_json n)) e held.node),
          e,
        );
  }

  module _ (s : Store) (done : List String) (u : String) (result : Json) (tr : Tracks s done)
      (known : includes u (ids ns) ≡ true) (absent : count u done ≡ 0) where
    abbrev stored : Store
    stored = store_result r s dag u result

    abbrev after : Store × List DagNodeInput
    after = find_ready r stored dag (tr.list u known).0 []

    abbrev need : String → ℕ
    need v = missing (done ++ u ∷ []) (deps_of ns v)

    stored_left :
        (v : String)
        → includes v (ids ns) ≡ true
        → get stored (remaining dag v) ≡ some (number (pos (need v + count v (tr.list u known).0)))
    stored_left v h =
        store_result-apart s u result (remaining dag v) (λ e. cc) (λ e. cc)
        ∙ tr.left v h
        ∙ ap (λ (m : ℕ). some (number (pos m)))
            (missing-snoc u done (deps_of ns v) absent
              ∙ ap (λ (m : ℕ). need v + m) (sym ((tr.list u known).2 v)))

    stored_node : (v : String) → includes v (ids ns) ≡ true → HasNode r dag stored v
    stored_node v h =
        let (n, p, e) = tr.node v h in
        (
          n,
          unfold get_node in
              (ap as_node (store_result-apart s u result (entry nodes dag v) (λ q. cc) (λ q. cc))
                ∙ p),
          e,
        )

    listed_known : (v : String) → 0 < count v (tr.list u known).0 → includes v (ids ns) ≡ true
    listed_known v h = known_of_dep ns u v (omega (arith, (tr.list u known).2 v))

    counted : CountedDown r dag need stored (tr.list u known).0 [] after
    counted =
        find_ready-CountedDown r dag need stored (tr.list u known).0 []
          (λ v h. stored_node v (listed_known v h)) (λ v h. stored_left v (listed_known v h))

    after-Tracks : Tracks after.0 (done ++ u ∷ [])
    after-Tracks = record {
      left = λ v h. counted.counters v ∙ elim (Bool-cases (ltb 0 (count v (tr.list u known).0))) [
        | inl t ↦ rw t
        | inr f ↦ rw f (stored_left v h ∙ ap (λ (m : ℕ). some (number (pos m))) (ground arith))
      ];
      list = λ w h.
          let (l, e, c) = tr.list w h in
          (
            l,
            counted.records dependents (λ q. cc) w
                ∙ store_result-apart s u result (entry dependents dag w) (λ q. cc) (λ q. cc)
                ∙ e,
            c,
          );
      node = λ v h. HasNode-keep r dag stored after.0 v counted.records (stored_node v h);
    }

    after_found : (v : String) → count v (ids after.1) ≡ released_by ns done u v
    after_found v = ground (arith, counted.found_count v, (tr.list u known).2 v)

  -- A node's completion: the counters stay true, and the nodes returned are those that it releases.
  pub mark_complete-Tracks :
      (s : Store) (done : List String) (u : String) (result : Json)
      → Tracks s done
      → includes u (ids ns) ≡ true
      → count u done ≡ 0
      → Tracks (mark_complete_and_find_ready r s dag u result).0 (done ++ u ∷ [])
        × ((v : String)
            → count v (ids (mark_complete_and_find_ready r s dag u result).1)
              ≡ released_by ns done u v)
  unfolding mark_complete_and_find_ready
  mark_complete-Tracks s done u result tr known absent =
      let names : get (store_result r s dag u result) (entry dependents dag u)
          ≡ some (names_json (tr.list u known).0) =
        store_result-apart s u result (entry dependents dag u) (λ q. cc) (λ q. cc)
        ∙ (tr.list u known).1 in
      rw names
        (after-Tracks s done u result tr known absent, after_found s done u result tr known absent)
