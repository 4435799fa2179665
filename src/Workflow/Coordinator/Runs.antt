-- ===== src/Workflow/Coordinator/Runs.antt =====
-- A DAG from its creation through any sequence of completions.
use mathlib.Core.List.{append-nil, append_assoc}
use ai_task_orchestrator.Base.{
  ℕ, ◌+◌, ◌≤◌, ◌<◌, ◌≡◌, sym, ap, subst, String, true, ◌&&◌, List, [], ◌∷◌, ◌++◌, map, arith,
  includes, count, missing, count-append, missing-snoc, missing-nil, IsDistinct, eq_refl,
  if◌then◌else◌, some, eqb, ltb, length,
}
use ai_task_orchestrator.Base.Json.{Json}
use ai_task_orchestrator.Base.Result.{ok}
use ai_task_orchestrator.Workflow.{DagNodeInput, DagMeta, ids, deps_of}
use ai_task_orchestrator.Workflow.Sort.{topological_layers}
use ai_task_orchestrator.Workflow.Store.{Redis}
use ai_task_orchestrator.Workflow.Coordinator.{persist, mark_complete_and_find_ready}
use ai_task_orchestrator.Workflow.Sort.Correct.{
  topological_layers-IsLayering, topological_layers-IsClosed,
}
use ai_task_orchestrator.Workflow.Coordinator.Persist.{persist-Persisted}
use ai_task_orchestrator.Workflow.Coordinator.Progress.{
  Tracks, released_by, Persisted-Tracks, mark_complete-Tracks,
}

-- The nodes that complete, in order, with their results.
abbrev pub Completions : Type 0
Completions = List (String × Json)

abbrev pub completed_ids : Completions → List String
completed_ids = map (λ (u, _). u)

-- Each node of the sequence is a node of the DAG.
abbrev pub AllKnown : List String → List DagNodeInput → Type 0
AllKnown us ns = (u : String) → 0 < count u us → includes u (ids ns) ≡ true

-- 1 if `v` depends on something, and on nothing outside `done`.
abbrev pub is_released : List DagNodeInput → List String → String → ℕ
is_released ns done v =
    if ltb 0 (length (deps_of ns v)) && eqb (missing done (deps_of ns v)) 0 then 1 else 0

-- The calls of `markCompleteAndFindReady`, with all nodes that they return.
unfoldable pub complete_all :
    (r : Redis) → String → r.Store → Completions → r.Store × List DagNodeInput
complete_all r dag s [] = (s, [])
complete_all r dag s ((u, result) ∷ rest) =
    let (s₁, found) = mark_complete_and_find_ready r s dag u result in
    let (s₂, later) = complete_all r dag s₁ rest in (s₂, found ++ later)

pub count-ids_append :
    (v : String) (xs ys : List DagNodeInput)
    → count v (ids (xs ++ ys)) ≡ count v (ids xs) + count v (ids ys)
count-ids_append v [] ys = omega arith
count-ids_append v (x ∷ xs) ys = omega (arith, count-ids_append v xs ys)

pub count-le_length : (u : String) (ds : List String) → count u ds ≤ length ds
count-le_length u [] = omega arith
count-le_length u (d ∷ ds) = ground (arith, count-le_length u ds)

-- One completion adds what it releases.
pub released_step :
    (ns : List DagNodeInput) (done : List String) (u v : String)
    → count u done ≡ 0
    → is_released ns done v + released_by ns done u v ≡ is_released ns (done ++ u ∷ []) v
released_step ns done u v absent =
    ground (arith, missing-snoc u done (deps_of ns v) absent, count-le_length u (deps_of ns v))

module _ (r : Redis) (dag : String) (ns : List DagNodeInput) where
  pub complete_all-count :
      (s : r.Store) (done : List String) (cs : Completions)
      → Tracks r dag ns s done
      → IsDistinct (done ++ completed_ids cs)
      → AllKnown (completed_ids cs) ns
      → (v : String)
      → is_released ns done v + count v (ids (complete_all r dag s cs).1)
        ≡ is_released ns (done ++ completed_ids cs) v
  unfolding complete_all
  complete_all-count s done [] tr d k v = rw (append-nil done) (omega arith)
  complete_all-count s done ((u, result) ∷ rest) tr d k v =
      let absent : count u done ≡ 0 =
        ground (arith, d u, count-append u done (u ∷ completed_ids rest), eq_refl u) in
      let (tr', found) =
        mark_complete-Tracks r dag ns s done u result tr (k u (ground (arith, eq_refl u))) absent in
      let same = append_assoc done (u ∷ []) (completed_ids rest) in
      let ih =
        complete_all-count (mark_complete_and_find_ready r s dag u result).0 (done ++ u ∷ []) rest
          tr' (subst IsDistinct (sym same) d) (λ w h. k w (omega arith)) v in
      omega (
        arith,
        ih,
        found v,
        released_step ns done u v absent,
        count-ids_append v (mark_complete_and_find_ready r s dag u result).1
            (complete_all r dag (mark_complete_and_find_ready r s dag u result).0 rest).1,
        ap (λ l. is_released ns l v) same,
      )

-- Take nodes that `topologicalLayers` accepts and store them by `persist`. Then let any nodes of
-- the DAG complete, in any order, none of them twice. Over all these completions
-- `markCompleteAndFindReady` returns a node exactly once if it depends on something and all that
-- it depends on is among the completed nodes, and not at all otherwise.
pub complete_all-released :
    (r : Redis) (s : r.Store) (m : DagMeta) (ns : List DagNodeInput) (layers : List (List String))
    (cs : Completions)
    → topological_layers ns ≡ ok layers
    → IsDistinct (completed_ids cs)
    → AllKnown (completed_ids cs) ns
    → (t : r.Store) × (persist r s m ns ≡ some t)
      × ((v : String)
          → count v (ids (complete_all r m.dag_id t cs).1) ≡ is_released ns (completed_ids cs) v)
complete_all-released r s m ns layers cs h d k =
    let (distinct, _, _) = topological_layers-IsLayering ns layers h in
    let p = persist-Persisted r s m ns distinct (topological_layers-IsClosed ns layers h) in
    (
      p.store,
      p.returned,
      λ v. ground (
        arith,
        complete_all-count r m.dag_id ns p.store [] cs
            (Persisted-Tracks r m.dag_id ns s (persist r s m ns) p) d k v,
        missing-nil (deps_of ns v),
      ),
    )
