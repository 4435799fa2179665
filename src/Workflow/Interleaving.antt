-- ===== src/Workflow/Interleaving.antt =====
-- `markCompleteAndFindReady` of libs/workflow/src/dag-coordinator.ts as other calls see it: between
-- two commands of a call the commands of any others are run.
pub mod Commands
pub mod Calls
pub mod Returned
pub mod Results
mod Examples
use ai_task_orchestrator.Base.{
  ℕ, ◌+◌, ◌≡◌, String, true, false, List, [], ◌∷◌, ◌++◌, map, Option, none, some, get_or, includes,
  count, if◌then◌else◌, is_zero,
}
use ai_task_orchestrator.Base.Json.{Json}
use ai_task_orchestrator.Workflow.{DagNodeInput, ready, completed, ids}
use ai_task_orchestrator.Workflow.Store.{
  Redis, Hash, nodes, dependents, results, statuses, remaining, entry, result_json, status,
}
use ai_task_orchestrator.Workflow.Coordinator.{as_names, get_node, ttl_seconds}

-- Where a call stands: the command that it sends next. `found` is its array `ready`.
pub data Point : Type 0 where
  storing expiring completing fetching : Point
  counting : (left : List String) (found : List DagNodeInput) → Point
  looking_up : (dep : String) (left : List String) (found : List DagNodeInput) → Point
  marking :
      (dep : String) (node : DagNodeInput) (left : List String) (found : List DagNodeInput) → Point
  returned : (found : List DagNodeInput) → Point

pub record Call : Type 0 where
  pub id : String
  pub result : Json
  pub point : Point

abbrev pub started : List Call → List String
started = map (λ c. c.id)

module _ (r : Redis) (dag : String) where
  open r use {Store, get, set, decr, expire}

  -- The next command of a call.
  unfoldable pub advance : Store → String → Json → Point → Store × Point
  unfolding get_node
  advance s id result storing = (set s (entry results dag id) (result_json result), expiring)
  advance s id result expiring = (expire s results dag ttl_seconds, completing)
  advance s id result completing = (set s (entry statuses dag id) (status completed), fetching)
  advance s id result fetching =
      (s, counting (get_or (as_names (get s (entry dependents dag id))) []) [])
  advance s id result (counting [] found) = (s, returned found)
  advance s id result (counting (dep ∷ left) found) =
      let (s', number) = decr s (remaining dag dep) in
      (s', if is_zero number then looking_up dep left found else counting left found)
  advance s id result (looking_up dep left found) = elim (get_node r s dag dep) [
    | none ↦ (s, counting left found)
    | some n ↦ (s, marking dep n left found)
  ]
  advance s id result (marking dep n left found) =
      (set s (entry statuses dag dep) (status ready), counting left (found ++ n ∷ []))
  advance s id result (returned found) = (s, returned found)

  -- The store, and the calls in the order in which they began.
  pub record Pool : Type 0 where
    pub store : Store
    pub calls : List Call

  abbrev pub advanced : Store → Call → Store × Call
  advanced s c =
      let (s', point) = advance s c.id c.result c.point in (s', record c { point = point })

  -- What may happen next: a call begins for a node for which none has begun, a call advances by one
  -- command, or other methods write statuses, ids of jobs and failures.
  pub data Step (ns : List DagNodeInput) (x : Pool) : Pool → Type 0 where
    begin :
        (u : String) (result : Json)
        → includes u (ids ns) ≡ true
        → count u (started x.calls) ≡ 0
        → Step ns x (record x {
          calls = x.calls ++ record { id = u; result = result; point = storing } ∷ [];
        })
    command :
        (before : List Call) (c : Call) (after : List Call)
        → x.calls ≡ before ++ (c ∷ after)
        → Step ns x (record {
          store = (advanced x.store c).0;
          calls = before ++ ((advanced x.store c).1 ∷ after);
        })
    elsewhere :
        (t : Store)
        → ((v : String) → get t (remaining dag v) ≡ get x.store (remaining dag v))
        → ((v : String) → get t (entry nodes dag v) ≡ get x.store (entry nodes dag v))
        → ((v : String) → get t (entry dependents dag v) ≡ get x.store (entry dependents dag v))
        → ((v : String) → get t (entry results dag v) ≡ get x.store (entry results dag v))
        → Step ns x (record x { store = t })

  pub data Reach (ns : List DagNodeInput) (s : Store) : Pool → Type 0 where
    start : Reach ns s (record { store = s; calls = [] })
    after : (x y : Pool) → Reach ns s x → Step ns x y → Reach ns s y
