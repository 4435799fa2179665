-- ===== src/Workflow/Interleaving/Calls.antt =====
-- What holds of the store and of the calls of a DAG at every moment of an interleaving.
use ai_task_orchestrator.Base.{
  ℕ, ◌+◌, ◌<◌, ◌≡◌, refl, sym, ap, ◌∙◌, subst, String, true, List, [], ◌∷◌, ◌++◌, arith, includes,
  count, count-append, missing, missing-snoc, missing-nil, inl, inr, eq_refl, eq_cases, some, pos,
  length, positive_cases, get_or,
}
use ai_task_orchestrator.Base.Json.{Json}
use ai_task_orchestrator.Base.Result.{ok}
use ai_task_orchestrator.Workflow.{DagNodeInput, DagMeta, ids, deps_of}
use ai_task_orchestrator.Workflow.Sort.{topological_layers}
use ai_task_orchestrator.Workflow.Sort.Correct.{
  topological_layers-IsLayering, topological_layers-IsClosed,
}
use ai_task_orchestrator.Workflow.Store.{Redis, nodes, dependents, remaining, entry, number}
use ai_task_orchestrator.Workflow.Coordinator.{as_node, get_node, persist}
use ai_task_orchestrator.Workflow.Coordinator.Persist.{persist-Persisted}
use ai_task_orchestrator.Workflow.Coordinator.Progress.{Tracks, Persisted-Tracks}
use ai_task_orchestrator.Workflow.Coordinator.Runs.{count-le_length}
use ai_task_orchestrator.Workflow.Interleaving.{
  Point, storing, advance, Call, Pool, started, Step, begin, command, elsewhere, Reach, start,
  after,
}
use ai_task_orchestrator.Workflow.Interleaving.Commands.{
  found_at, pending, due, Records, Advanced, advance-Advanced, known_of_length,
}

-- What the calls have found, all together.
abbrev pub found_in : List Call → String → ℕ
found_in [] v = 0
found_in (c ∷ cs) v = found_at c.point v + found_in cs v

found_in-append :
    (cs ds : List Call) (v : String) → found_in (cs ++ ds) v ≡ found_in cs v + found_in ds v
found_in-append [] ds v = omega arith
found_in-append (c ∷ cs) ds v = omega (arith, found_in-append cs ds v)

pub started-append : (cs ds : List Call) → started (cs ++ ds) ≡ started cs ++ started ds
started-append [] ds = refl
started-append (c ∷ cs) ds = ap (λ l. c.id ∷ l) (started-append cs ds)

module _ (r : Redis) (dag : String) (ns : List DagNodeInput) where
  open r use {Store, get, set}

  abbrev pub pending_in : List Call → String → ℕ
  pending_in [] v = 0
  pending_in (c ∷ cs) v = pending r dag ns c.id c.point v + pending_in cs v

  pub pending_in-append :
      (cs ds : List Call) (v : String) → pending_in (cs ++ ds) v ≡ pending_in cs v + pending_in ds v
  pending_in-append [] ds v = omega arith
  pending_in-append (c ∷ cs) ds v = omega (arith, pending_in-append cs ds v)

  -- The counter of `v`: what it waits for that has not begun, and what the calls will count down.
  abbrev pub counter : List Call → String → ℕ
  counter cs v = missing (started cs) (deps_of ns v) + pending_in cs v

  pub record Inv (s : Store) (cs : List Call) : Type 0 where
    pub records : Records r dag ns s
    pub known : (u : String) → 0 < count u (started cs) → includes u (ids ns) ≡ true
    pub left :
        (v : String)
        → includes v (ids ns) ≡ true
        → get s (remaining dag v) ≡ some (number (pos (counter cs v)))
    pub listed : (v : String) → 0 < pending_in cs v → 0 < length (deps_of ns v)
    pub found_lem : (v : String) → found_in cs v ≡ due r dag ns v (counter cs v)

  kept :
      (s t : Store)
      → Records r dag ns s
      → ((v : String) → get t (entry nodes dag v) ≡ get s (entry nodes dag v))
      → ((v : String) → get t (entry dependents dag v) ≡ get s (entry dependents dag v))
      → Records r dag ns t
  unfolding get_node
  kept s t rec same_nodes same_lists = record {
    list = λ u k. let (l, e, same) = rec.list u k in (l, same_lists u ∙ e, same);
    node = λ v k. let (n, e, named) = rec.node v k in (n, ap as_node (same_nodes v) ∙ e, named);
  }

  begin-Inv :
      (s : Store) (cs : List Call) (u : String) (result : Json)
      → includes u (ids ns) ≡ true
      → count u (started cs) ≡ 0
      → Inv s cs
      → Inv s (cs ++ record { id = u; result = result; point = storing } ∷ [])
  begin-Inv s cs u result k absent i = record {
    records = i.records;
    known = λ w h. elim (eq_cases u w) [
      | inl (t, e) ↦ subst (λ x. includes x (ids ns) ≡ true) e k
      | inr (f, ne) ↦
          i.known w (ground (arith, f, h, ap (count w) same, count-append w (started cs) (u ∷ [])))
    ];
    left = λ v h. i.left v h ∙ ap (λ (n : ℕ). some (number (pos n))) (balance v);
    listed = λ v h. elim (positive_cases (pending_in cs v)) [
      | inl none_there ↦ omega (
        arith,
        h,
        none_there,
        pending_in-append cs (new ∷ []) v,
        count-le_length u (deps_of ns v),
      )
      | inr there ↦ i.listed v there
    ];
    found_lem = λ v.
        omega (arith, found_in-append cs (new ∷ []) v, i.found_lem v)
        ∙ ap (due r dag ns v) (balance v);
  }
    where
      new : Call
      new = record { id = u; result = result; point = storing }

      same : started (cs ++ new ∷ []) ≡ started cs ++ u ∷ []
      same = started-append cs (new ∷ [])

      balance : (v : String) → counter cs v ≡ counter (cs ++ new ∷ []) v
      balance v = omega (
        arith,
        missing-snoc u (started cs) (deps_of ns v) absent,
        ap (λ l. missing l (deps_of ns v)) same,
        pending_in-append cs (new ∷ []) v,
      )

  module _ (s : Store) (bs : List Call) (c : Call) (ds : List Call) where
    abbrev pub others : String → ℕ
    others v =
        missing (started (bs ++ (c ∷ ds))) (deps_of ns v) + (pending_in bs v + pending_in ds v)

    abbrev moved : Store × Point
    moved = advance r dag s c.id c.result c.point

    abbrev next_calls : List Call
    next_calls = bs ++ (record c { point = moved.1 } ∷ ds)

    same_started : started next_calls ≡ started (bs ++ (c ∷ ds))
    same_started =
        started-append bs (record c { point = moved.1 } ∷ ds) ∙ sym (started-append bs (c ∷ ds))

    pub counter_before :
        (v : String) → counter (bs ++ (c ∷ ds)) v ≡ others v + pending r dag ns c.id c.point v
    counter_before v = omega (arith, pending_in-append bs (c ∷ ds) v)

    counter_after : (v : String) → counter next_calls v ≡ others v + pending r dag ns c.id moved.1 v
    counter_after v = omega (
      arith,
      pending_in-append bs (record c { point = moved.1 } ∷ ds) v,
      ap (λ l. missing l (deps_of ns v)) same_started,
    )

    module _ (i : Inv s (bs ++ (c ∷ ds))) where
      stepped : Advanced r dag ns s others c.id c.point moved
      stepped =
          advance-Advanced r dag ns s others c.id c.result c.point i.records
            (i.known c.id (
              ground (
                arith,
                eq_refl c.id,
                ap (count c.id) (started-append bs (c ∷ ds)),
                count-append c.id (started bs) (c.id ∷ started ds),
              )))
            (λ v h. i.listed v (omega (arith, pending_in-append bs (c ∷ ds) v)))
            (λ v h.
              known_of_length r dag ns v
                (ground (arith, h, i.found_lem v, found_in-append bs (c ∷ ds) v)))
            (λ v k. i.left v k ∙ ap (λ (n : ℕ). some (number (pos n))) (counter_before v))

      advance-Inv : Inv moved.0 next_calls
      advance-Inv = record {
        records =
            kept s moved.0 i.records (λ v. stepped.records nodes (λ q. cc) (λ q. cc) v)
              (λ v. stepped.records dependents (λ q. cc) (λ q. cc) v);
        known = λ u h. i.known u (omega (arith, h, ap (count u) same_started));
        left =
            λ v k. stepped.left v k ∙ ap (λ (n : ℕ). some (number (pos n))) (sym (counter_after v));
        listed = λ v h. i.listed v (
            omega (
              arith,
              h,
              stepped.fewer v,
              pending_in-append bs (c ∷ ds) v,
              pending_in-append bs (record c { point = moved.1 } ∷ ds) v,
            ));
        found_lem = λ v. omega (
          arith,
          stepped.found_lem v,
          i.found_lem v,
          found_in-append bs (c ∷ ds) v,
          found_in-append bs (record c { point = moved.1 } ∷ ds) v,
          ap (due r dag ns v) (counter_before v),
          ap (due r dag ns v) (counter_after v),
        );
      }

  elsewhere-Inv :
      (s t : Store) (cs : List Call)
      → ((v : String) → get t (remaining dag v) ≡ get s (remaining dag v))
      → ((v : String) → get t (entry nodes dag v) ≡ get s (entry nodes dag v))
      → ((v : String) → get t (entry dependents dag v) ≡ get s (entry dependents dag v))
      → Inv s cs
      → Inv t cs
  elsewhere-Inv s t cs same_left same_nodes same_lists i = record {
    records = kept s t i.records same_nodes same_lists;
    known = i.known;
    left = λ v k. same_left v ∙ i.left v k;
    listed = i.listed;
    found_lem = i.found_lem;
  }

  pub Step-Inv : (x y : Pool r dag) → Step r dag ns x y → Inv x.store x.calls → Inv y.store y.calls
  Step-Inv x y (begin u result k absent) i = begin-Inv x.store x.calls u result k absent i
  Step-Inv x y (command bs c ds e) i = advance-Inv x.store bs c ds (subst (Inv x.store) e i)
  Step-Inv x y (elsewhere t a b c d) i = elsewhere-Inv x.store t x.calls a b c i

  pub Reach-Inv : (s : Store) (x : Pool r dag) → Inv s [] → Reach r dag ns s x → Inv x.store x.calls
  Reach-Inv s x i start = i
  Reach-Inv s x i (after w y h step) = Step-Inv w y step (Reach-Inv s w i h)

  Tracks-Inv : (s : Store) → Tracks r dag ns s [] → Inv s []
  Tracks-Inv s tr = record {
    records = record { list = tr.list; node = tr.node };
    known = λ u h. absurd (omega arith);
    left = λ v k. tr.left v k ∙ ap (λ (n : ℕ). some (number (pos n))) (omega arith);
    listed = λ v h. absurd (omega arith);
    found_lem = λ v. ground (arith, missing-nil (deps_of ns v));
  }

pub persisted-Inv :
    (r : Redis) (s : r.Store) (m : DagMeta) (ns : List DagNodeInput) (layers : List (List String))
    (t : r.Store)
    → topological_layers ns ≡ ok layers
    → persist r s m ns ≡ some t
    → Inv r m.dag_id ns t []
persisted-Inv r s m ns layers t h stored =
    let (distinct, _, _) = topological_layers-IsLayering ns layers h in
    let p = persist-Persisted r s m ns distinct (topological_layers-IsClosed ns layers h) in
    let same : p.store ≡ t = ap (λ o. get_or o t) (sym p.returned ∙ stored) in
    subst (λ w. Inv r m.dag_id ns w []) same
      (Tracks-Inv r m.dag_id ns p.store (Persisted-Tracks r m.dag_id ns s (persist r s m ns) p))
