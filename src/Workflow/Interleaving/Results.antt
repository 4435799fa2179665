-- ===== src/Workflow/Interleaving/Results.antt =====
-- A node is found only once the results of all that it depends on are stored.
use ai_task_orchestrator.Base.{
  ℕ, ◌+◌, ◌<◌, ◌≡◌, ◌≢◌, refl, sym, ap, ◌∙◌, subst, String, List, [], ◌∷◌, ◌++◌, arith, count,
  count-append, inl, inr, eq_refl, eq_cases, some, pos, length, IsDistinct, includes_of_missing,
  includes-true_iff, is_zero, Bool-cases, Option-cases, snoc-IsDistinct, includes-false_iff,
}
use ai_task_orchestrator.Base.Json.{Json}
use ai_task_orchestrator.Base.Result.{ok}
use ai_task_orchestrator.Workflow.{DagNodeInput, DagMeta, deps_of}
use ai_task_orchestrator.Workflow.Sort.{topological_layers}
use ai_task_orchestrator.Workflow.Store.{
  Redis, results, statuses, remaining, entry, number, result_json,
}
use ai_task_orchestrator.Workflow.Coordinator.{get_node, ttl_seconds, persist}
use ai_task_orchestrator.Workflow.Interleaving.{
  Point, storing, expiring, completing, fetching, counting, looking_up, marking, returned, advance,
  Call, Pool, started, Step, begin, command, elsewhere, Reach, start, after,
}
use ai_task_orchestrator.Workflow.Interleaving.Commands.{pending, Counts, decr_lem}
use ai_task_orchestrator.Workflow.Interleaving.Calls.{
  Inv, found_in, pending_in, pending_in-append, counter, others, counter_before, Step-Inv,
  persisted-Inv, started-append,
}

module _ (r : Redis) (dag : String) (ns : List DagNodeInput) where
  open r use {Store, get, set, decr, get-set_self, get-set_ne, get-expire}

  -- A call that has sent its first command has its result in the store.
  abbrev StoredAt : Store → String → Json → Point → Type 0
  StoredAt s u result storing = Unit {0}
  StoredAt s u result expiring = get s (entry results dag u) ≡ some (result_json result)
  StoredAt s u result completing = get s (entry results dag u) ≡ some (result_json result)
  StoredAt s u result fetching = get s (entry results dag u) ≡ some (result_json result)
  StoredAt s u result (counting left found) =
      get s (entry results dag u) ≡ some (result_json result)
  StoredAt s u result (looking_up dep left found) =
      get s (entry results dag u) ≡ some (result_json result)
  StoredAt s u result (marking dep n left found) =
      get s (entry results dag u) ≡ some (result_json result)
  StoredAt s u result (returned found) = get s (entry results dag u) ≡ some (result_json result)

  abbrev AllStored : Store → List Call → Type 0
  AllStored s [] = Unit
  AllStored s (c ∷ cs) = StoredAt s c.id c.result c.point × AllStored s cs

  StoredAt-keep :
      (s t : Store) (u : String) (result : Json) (p : Point)
      → get t (entry results dag u) ≡ get s (entry results dag u)
      → StoredAt s u result p
      → StoredAt t u result p
  StoredAt-keep s t u result storing e h = tt
  StoredAt-keep s t u result expiring e h = e ∙ h
  StoredAt-keep s t u result completing e h = e ∙ h
  StoredAt-keep s t u result fetching e h = e ∙ h
  StoredAt-keep s t u result (counting left found) e h = e ∙ h
  StoredAt-keep s t u result (looking_up dep left found) e h = e ∙ h
  StoredAt-keep s t u result (marking dep n left found) e h = e ∙ h
  StoredAt-keep s t u result (returned found) e h = e ∙ h

  AllStored-keep :
      (s t : Store) (cs : List Call)
      → ((x : String)
          → 0 < count x (started cs)
          → get t (entry results dag x) ≡ get s (entry results dag x))
      → AllStored s cs
      → AllStored t cs
  AllStored-keep s t [] e h = tt
  AllStored-keep s t (c ∷ cs) e (h, hs) = (
    StoredAt-keep s t c.id c.result c.point (e c.id (ground (arith, eq_refl c.id))) h,
    AllStored-keep s t cs (λ x k. e x (omega arith)) hs,
  )

  -- One command keeps the results of other nodes, and its own call's.
  abbrev Answers : Store → String → Json → Point → Store × Point → Type 0
  Answers s u result p next =
      ((x : String) → u ≢ x → get next.0 (entry results dag x) ≡ get s (entry results dag x))
      × (StoredAt s u result p → StoredAt next.0 u result next.1)

  advance-Answers :
      (s : Store) (m : String → ℕ) (u : String) (result : Json) (p : Point)
      → ((v : String) → 0 < pending r dag ns u p v → 0 < length (deps_of ns v))
      → Counts r dag ns s m u p
      → Answers s u result p (advance r dag s u result p)
  unfolding advance
  advance-Answers s m u result storing listed c = (
    λ x ne. get-set_ne s (entry results dag u) (entry results dag x) _ (λ e. ne (cc)),
    λ _. get-set_self s (entry results dag u) (result_json result),
  )
  advance-Answers s m u result expiring listed c = (
    λ x _. get-expire s results dag ttl_seconds (entry results dag x),
    λ h. get-expire s results dag ttl_seconds (entry results dag u) ∙ h,
  )
  advance-Answers s m u result completing listed c = (
    λ x _. get-set_ne s (entry statuses dag u) (entry results dag x) _ (λ e. cc),
    λ h. get-set_ne s (entry statuses dag u) (entry results dag u) _ (λ e. cc) ∙ h,
  )
  advance-Answers s m u result fetching listed c = (λ x _. refl, λ h. h)
  advance-Answers s m u result (counting [] found) listed c = (λ x _. refl, λ h. h)
  advance-Answers s m u result (counting (d ∷ ds) found) listed c =
      let n = m d + count d ds in
      let apart = λ (x : String).
        get-set_ne s (remaining dag d) (entry results dag x) (number (pos n)) (λ e. cc) in
      rw (decr_lem r dag ns s m u d ds found (listed d (ground (arith, eq_refl d))) c)
        (elim (Bool-cases (is_zero (pos n))) [
          | inl t ↦ rw t (λ x _. apart x, λ h. apart u ∙ h)
          | inr f ↦ rw f (λ x _. apart x, λ h. apart u ∙ h)
        ])
  advance-Answers s m u result (looking_up d ds found) listed c =
      elim (Option-cases (get_node r s dag d)) [
        | inl e ↦ rw (e, advance) (λ x _. refl, λ h. h)
        | inr (n, e) ↦ rw (e, advance) (λ x _. refl, λ h. h)
      ]
  advance-Answers s m u result (marking d n ds found) listed c = (
    λ x _. get-set_ne s (entry statuses dag d) (entry results dag x) _ (λ e. cc),
    λ h. get-set_ne s (entry statuses dag d) (entry results dag u) _ (λ e. cc) ∙ h,
  )
  advance-Answers s m u result (returned found) listed c = (λ x _. refl, λ h. h)

  AllStored-append :
      (s : Store) (cs ds : List Call) → AllStored s cs → AllStored s ds → AllStored s (cs ++ ds)
  AllStored-append s [] ds h k = k
  AllStored-append s (c ∷ cs) ds (h, hs) k = (h, AllStored-append s cs ds hs k)

  AllStored-split :
      (s : Store) (cs ds : List Call) → AllStored s (cs ++ ds) → AllStored s cs × AllStored s ds
  AllStored-split s [] ds h = (tt, h)
  AllStored-split s (c ∷ cs) ds (h, hs) = let (k, l) = AllStored-split s cs ds hs in ((h, k), l)

  record Good (s : Store) (cs : List Call) : Type 0 where
    inv : Inv r dag ns s cs
    distinct : IsDistinct (started cs)
    stored : AllStored s cs

  module _ (s : Store) (bs : List Call) (c : Call) (ds : List Call)
      (g : Good s (bs ++ (c ∷ ds))) where
    abbrev moved : Store × Point
    moved = advance r dag s c.id c.result c.point

    answers : Answers s c.id c.result c.point moved
    answers =
        advance-Answers s (others r dag ns s bs c ds) c.id c.result c.point
          (λ v h. g.inv.listed v (omega (arith, pending_in-append r dag ns bs (c ∷ ds) v)))
          (λ v k.
            g.inv.left v k
            ∙ ap (λ (n : ℕ). some (number (pos n))) (counter_before r dag ns s bs c ds v))

    once : count c.id (started bs) + count c.id (started ds) ≡ 0
    once = ground (
      arith,
      g.distinct c.id,
      ap (count c.id) (started-append bs (c ∷ ds)),
      count-append c.id (started bs) (c.id ∷ started ds),
      eq_refl c.id,
    )

    apart : (x : String) → 0 < count x (started bs) + count x (started ds) → c.id ≢ x
    apart x h e = omega (arith, once, ap (λ w. count w (started bs) + count w (started ds)) e)

    command-stored : AllStored moved.0 (bs ++ (record c { point = moved.1 } ∷ ds))
    command-stored =
        let (front, (own, back)) = split in
        AllStored-append moved.0 bs (record c { point = moved.1 } ∷ ds)
          (AllStored-keep s moved.0 bs (λ x k. answers.0 x (apart x (omega arith))) front)
          (
            answers.1 own,
            AllStored-keep s moved.0 ds (λ x k. answers.0 x (apart x (omega arith))) back,
          )
      where
        split : AllStored s bs × (StoredAt s c.id c.result c.point × AllStored s ds)
        split = AllStored-split s bs (c ∷ ds) g.stored

  Step-Good : (x y : Pool r dag) → Step r dag ns x y → Good x.store x.calls → Good y.store y.calls
  Step-Good x y (begin u result k absent) g = record {
    inv = Step-Inv r dag ns x y (begin u result k absent) g.inv;
    distinct =
        subst IsDistinct
          (sym (started-append x.calls (record { id = u; result = result; point = storing } ∷ [])))
          (snoc-IsDistinct (started x.calls) u g.distinct
            ((includes-false_iff u (started x.calls)).1 absent));
    stored = AllStored-append x.store x.calls _ g.stored (tt, tt);
  }
  Step-Good x y (command bs c ds e) g =
      let g' : Good x.store (bs ++ (c ∷ ds)) = subst (Good x.store) e g in
      record {
        inv = Step-Inv r dag ns x y (command bs c ds e) g.inv;
        distinct =
            subst IsDistinct
              (started-append bs (c ∷ ds)
                ∙ sym (started-append bs (record c { point = (moved x.store bs c ds g').1 } ∷ ds)))
              g'.distinct;
        stored = command-stored x.store bs c ds g';
      }
  Step-Good x y (elsewhere t a b c d) g = record {
    inv = Step-Inv r dag ns x y (elsewhere t a b c d) g.inv;
    distinct = g.distinct;
    stored = AllStored-keep x.store t x.calls (λ v _. d v) g.stored;
  }

  Reach-Good :
      (s : Store) (x : Pool r dag) → Inv r dag ns s [] → Reach r dag ns s x → Good x.store x.calls
  Reach-Good s x i start = record { inv = i; distinct = λ v. omega arith; stored = tt }
  Reach-Good s x i (after w y h step) = Step-Good w y step (Reach-Good s w i h)

  HasResult : Store → String → Type 0
  HasResult s u = (result : Json) × (get s (entry results dag u) ≡ some (result_json result))

  own_result :
      (s : Store) (u : String) (result : Json) (p : Point) (v : String)
      → 0 < count u (deps_of ns v)
      → pending r dag ns u p v ≡ 0
      → StoredAt s u result p
      → HasResult s u
  unfolding HasResult
  own_result s u result storing v k h st = absurd (omega arith)
  own_result s u result expiring v k h st = (result, st)
  own_result s u result completing v k h st = (result, st)
  own_result s u result fetching v k h st = (result, st)
  own_result s u result (counting left found) v k h st = (result, st)
  own_result s u result (looking_up d ds found) v k h st = (result, st)
  own_result s u result (marking d n ds found) v k h st = (result, st)
  own_result s u result (returned found) v k h st = (result, st)

  result_of :
      (s : Store) (cs : List Call) (u v : String)
      → 0 < count u (deps_of ns v)
      → pending_in r dag ns cs v ≡ 0
      → 0 < count u (started cs)
      → AllStored s cs
      → HasResult s u
  result_of s [] u v k h there st = absurd (omega arith)
  result_of s (c ∷ cs) u v k h there (st, sts) = elim (eq_cases c.id u) [
    | inl (t, e) ↦ subst (HasResult s) e (
        own_result s c.id c.result c.point v (omega (arith, k, ap (λ w. count w (deps_of ns v)) e))
          (omega arith) st)
    | inr (f, ne) ↦ result_of s cs u v k (omega arith) (ground (arith, f, there)) sts
  ]

-- Take nodes that `topologicalLayers` accepts and store them by `persist`. However the commands of calls
-- of `markCompleteAndFindReady`, at most one for each node, and the writes of other methods interleave,
-- at every moment: a node that some call has found has been found once, and all that it depends on has
-- its result in the store.
pub interleaved-results :
    (r : Redis) (s : r.Store) (m : DagMeta) (ns : List DagNodeInput) (layers : List (List String))
    (t : r.Store) (x : Pool r m.dag_id) (u v : String)
    → topological_layers ns ≡ ok layers
    → persist r s m ns ≡ some t
    → Reach r m.dag_id ns t x
    → 0 < found_in x.calls v
    → (found_in x.calls v ≡ 1)
      × (0 < count u (deps_of ns v)
          → (result : Json) × (r.get x.store (entry results m.dag_id u)
              ≡ some (result_json result)))
unfolding HasResult
interleaved-results r s m ns layers t x u v h stored reach found =
    let g = Reach-Good r m.dag_id ns t x (persisted-Inv r s m ns layers t h stored) reach in
    let zero_left : counter r m.dag_id ns x.calls v ≡ 0 =
      ground (arith, found, g.inv.found_lem v) in
    (
      ground (arith, found, g.inv.found_lem v),
      λ k.
          result_of r m.dag_id ns x.store x.calls u v k (omega (arith, zero_left))
            ((includes-true_iff u (started x.calls)).0
              (includes_of_missing u (started x.calls) (deps_of ns v) (omega (arith, zero_left)) k))
            g.stored,
    )
