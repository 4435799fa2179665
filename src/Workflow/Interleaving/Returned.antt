-- ===== src/Workflow/Interleaving/Returned.antt =====
-- Any interleaving of the calls for a DAG releases what the calls one after another release.
use ai_task_orchestrator.Base.{◌≡◌, refl, ap, ◌∙◌, String, List, [], ◌∷◌, arith, some}
use ai_task_orchestrator.Base.Result.{ok}
use ai_task_orchestrator.Workflow.{DagNodeInput, DagMeta}
use ai_task_orchestrator.Workflow.Sort.{topological_layers}
use ai_task_orchestrator.Workflow.Store.{Redis}
use ai_task_orchestrator.Workflow.Coordinator.{persist}
use ai_task_orchestrator.Workflow.Coordinator.Runs.{is_released}
use ai_task_orchestrator.Workflow.Interleaving.{
  Point, storing, expiring, completing, fetching, counting, looking_up, marking, returned, Call,
  Pool, started, Reach,
}
use ai_task_orchestrator.Workflow.Interleaving.Commands.{pending, due}
use ai_task_orchestrator.Workflow.Interleaving.Calls.{
  found_in, pending_in, Reach-Inv, persisted-Inv,
}

abbrev IsReturned : Point → Type 0
IsReturned (returned found) = Unit
IsReturned _ = ⊥

abbrev pub AllReturned : List Call → Type 0
AllReturned [] = Unit
AllReturned (c ∷ cs) = IsReturned c.point × AllReturned cs

pending-IsReturned :
    (r : Redis) (dag : String) (ns : List DagNodeInput) (u : String) (p : Point) (v : String)
    → IsReturned p
    → pending r dag ns u p v ≡ 0
pending-IsReturned r dag ns u (returned found) v h = refl
pending-IsReturned r dag ns u storing v h = elim h [ ]
pending-IsReturned r dag ns u expiring v h = elim h [ ]
pending-IsReturned r dag ns u completing v h = elim h [ ]
pending-IsReturned r dag ns u fetching v h = elim h [ ]
pending-IsReturned r dag ns u (counting left found) v h = elim h [ ]
pending-IsReturned r dag ns u (looking_up dep left found) v h = elim h [ ]
pending-IsReturned r dag ns u (marking dep n left found) v h = elim h [ ]

pending_in-AllReturned :
    (r : Redis) (dag : String) (ns : List DagNodeInput) (cs : List Call) (v : String)
    → AllReturned cs
    → pending_in r dag ns cs v ≡ 0
pending_in-AllReturned r dag ns [] v h = refl
pending_in-AllReturned r dag ns (c ∷ cs) v (h, hs) =
    omega
      (arith, pending-IsReturned r dag ns c.id c.point v h, pending_in-AllReturned r dag ns cs v hs)

-- Take nodes that `topologicalLayers` accepts and store them by `persist`. Then let calls of
-- `markCompleteAndFindReady` begin, at most one for each node, and let their commands, and the writes
-- of other methods, interleave in any way. Once all calls have returned, they have returned a node
-- exactly once, all together, if it depends on something and calls have begun for all that it depends
-- on, and not at all otherwise.
pub interleaved-released :
    (r : Redis) (s : r.Store) (m : DagMeta) (ns : List DagNodeInput) (layers : List (List String))
    (t : r.Store) (x : Pool r m.dag_id)
    → topological_layers ns ≡ ok layers
    → persist r s m ns ≡ some t
    → Reach r m.dag_id ns t x
    → AllReturned x.calls
    → (v : String) → found_in x.calls v ≡ is_released ns (started x.calls) v
interleaved-released r s m ns layers t x h stored reach done v =
    let i = Reach-Inv r m.dag_id ns t x (persisted-Inv r s m ns layers t h stored) reach in
    i.found_lem v
    ∙ ap (due r m.dag_id ns v) (omega (arith, pending_in-AllReturned r m.dag_id ns x.calls v done))
