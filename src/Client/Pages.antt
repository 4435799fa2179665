-- ===== src/Client/Pages.antt =====
-- What the pages compute from the data they show: apps/web/src/pages/DagView.tsx, Dashboard.tsx and
-- apps/web/src/components/TaskFlowAnimation.tsx.
use ai_task_orchestrator.Base.{
  ℕ, ◌+◌, ◌≡◌, String, List, [], ◌∷◌, Option, none, some, get_or, length, if◌then◌else◌, ◌==◌,
  arith, ◌∙◌,
}
use ai_task_orchestrator.Base.Dict
use ai_task_orchestrator.Base.Dict.{Dict}
use ai_task_orchestrator.Workflow.{NodeStatus}
use ai_task_orchestrator.Workflows.{DagStatusNode}

-- The page counts nodes that are ready as pending.
abbrev pub status_key : NodeStatus → String
status_key NodeStatus.ready = "pending"
status_key NodeStatus.pending = "pending"
status_key NodeStatus.active = "active"
status_key NodeStatus.completed = "completed"
status_key NodeStatus.failed = "failed"

-- LEGEND
abbrev pub legend : List String
legend = "pending" ∷ "active" ∷ "completed" ∷ "failed" ∷ []

unfoldable pub count_statuses : Dict ℕ → List DagStatusNode → Dict ℕ
count_statuses acc [] = acc
count_statuses acc (n ∷ ns) =
    let key = status_key n.status in
    count_statuses (Dict.set acc key (get_or (Dict.get acc key) 0 + 1)) ns

-- `counts`, with `dag?.nodes` as a list.
unfoldable pub counts : List DagStatusNode → Dict ℕ
unfolding count_statuses
counts ns = count_statuses [] ns

abbrev pub shown : Dict ℕ → List String → ℕ
shown c [] = 0
shown c (key ∷ keys) = get_or (Dict.get c key) 0 + shown c keys

-- `dag.nodes.find((n) => n.id === selectedId) ?? null`
unfoldable pub selected : Option String → List DagStatusNode → Option DagStatusNode
selected none ns = none
selected (some id) [] = none
selected (some id) (n ∷ ns) = if n.id == id then some n else selected (some id) ns

-- What the page shows once the entry of a key is set.
shown_set :
    (acc : Dict ℕ) (key : String) (v : ℕ)
    → shown (Dict.set acc key v) legend
      ≡ (if key == "pending" then v else get_or (Dict.get acc "pending") 0)
        + ((if key == "active" then v else get_or (Dict.get acc "active") 0)
            + ((if key == "completed" then v else get_or (Dict.get acc "completed") 0)
                + ((if key == "failed" then v else get_or (Dict.get acc "failed") 0) + 0)))
shown_set acc key v = omega (
  arith,
  Dict.get_or-set acc key "pending" v 0,
  Dict.get_or-set acc key "active" v 0,
  Dict.get_or-set acc key "completed" v 0,
  Dict.get_or-set acc key "failed" v 0,
)

one_more :
    (acc : Dict ℕ) (st : NodeStatus)
    → shown (Dict.set acc (status_key st) (get_or (Dict.get acc (status_key st)) 0 + 1)) legend
      ≡ shown acc legend + 1
one_more acc NodeStatus.ready = shown_set acc "pending" _ ∙ omega arith
one_more acc NodeStatus.pending = shown_set acc "pending" _ ∙ omega arith
one_more acc NodeStatus.active = shown_set acc "active" _ ∙ omega arith
one_more acc NodeStatus.completed = shown_set acc "completed" _ ∙ omega arith
one_more acc NodeStatus.failed = shown_set acc "failed" _ ∙ omega arith

count_statuses-shown :
    (acc : Dict ℕ) (ns : List DagStatusNode)
    → shown (count_statuses acc ns) legend ≡ shown acc legend + length ns
unfolding count_statuses
count_statuses-shown acc [] = omega arith
count_statuses-shown acc (n ∷ ns) =
    let key = status_key n.status in
    omega (
      arith,
      count_statuses-shown (Dict.set acc key (get_or (Dict.get acc key) 0 + 1)) ns,
      one_more acc n.status,
    )

-- The numbers beside the four entries of the legend add up to the number of nodes.
pub counts-shown : (ns : List DagStatusNode) → shown (counts ns) legend ≡ length ns
unfolding counts Dict.get
counts-shown ns = omega (arith, count_statuses-shown [] ns)
