-- ===== src/Editor.antt =====
-- apps/web/src/lib/dagValidation.ts, and the state of apps/web/src/pages/DagEditor.tsx. An edge goes
-- from a node to one that depends on it.
pub mod Paths
pub mod Search
pub mod Checks
pub mod Agreement
pub mod Edits
pub mod Sessions
mod Examples
use ai_task_orchestrator.Base.{
  ℕ, zero, suc, ◌+◌, String, Bool, true, false, ◌≡◌, List, [], ◌∷◌, ◌++◌, map, Option, none, some,
  get_or, includes, length, select, not, ◌&&◌, ◌||◌, ◌==◌, if◌then◌else◌, is_some,
}
use ai_task_orchestrator.Base.Dict
use ai_task_orchestrator.Base.Dict.{Dict}
use ai_task_orchestrator.Base.Json.{Json, Fields, field, end}
use ai_task_orchestrator.Queue.{TaskType}
use ai_task_orchestrator.Workflow.{DagNodeInput}

pub record Edge : Type 0 where
  pub source : String
  pub target : String

-- A node with its `data`; where it is drawn is left out.
pub record EditorNode : Type 0 where
  pub id : String
  pub payload : Fields
  pub task_type : Option TaskType

-- `if (!m.has(k)) m.set(k, []); m.get(k)!.push(v)`
unfoldable pub push_at : Dict (List String) → String → String → Dict (List String)
push_at m k v =
    let m' = if Dict.has m k then m else Dict.set m k [] in
    Dict.set m' k (get_or (Dict.get m' k) [] ++ v ∷ [])

unfoldable pub adjacency : Dict (List String) → List Edge → Dict (List String)
unfolding push_at
adjacency m [] = m
adjacency m (e ∷ es) = adjacency (push_at m e.source e.target) es

abbrev pub reverse : List String → List String
reverse [] = []
reverse (x ∷ xs) = reverse xs ++ x ∷ []

-- The `while` loop of `wouldCreateCycle`, a unit of fuel for each round; the top of the stack comes
-- first. `none`: the fuel ran out.
unfoldable pub explore : ℕ → Dict (List String) → String → List String → List String → Option Bool
explore fuel adj source seen [] = some false
explore zero adj source seen (cur ∷ stack) = none
explore (suc fuel) adj source seen (cur ∷ stack) =
    let skip = explore fuel adj source seen stack in
    let deeper =
      explore fuel adj source (cur ∷ seen) (reverse (get_or (Dict.get adj cur) []) ++ stack) in
    if cur == source then some true else if includes cur seen then skip else deeper

unfoldable pub would_create_cycle : List Edge → (source target : String) → Option Bool
unfolding explore adjacency
would_create_cycle edges source target =
    if source == target
    then some true
    else explore (suc (length edges)) (adjacency [] edges) source [] (target ∷ [])

-- The messages of `validateDag`; `diverges` is none of the program, it says that fuel ran out.
pub data EditorError : Type 0 where
  no_nodes cycle diverges : EditorError

abbrev pub on_check : Option Bool → Option EditorError → Option EditorError
on_check none rest = some diverges
on_check (some true) rest = some cycle
on_check (some false) rest = rest

-- The loop over the edges: each one against all others, those `before` it and those after.
unfoldable pub check_edges : (before after : List Edge) → Option EditorError
unfolding would_create_cycle
check_edges before [] = none
check_edges before (e ∷ after) =
    on_check (would_create_cycle (before ++ after) e.source e.target)
      (check_edges (before ++ e ∷ []) after)

-- `none` is the `null` of a valid graph.
unfoldable pub validate_dag : List EditorNode → List Edge → Option EditorError
unfolding check_edges
validate_dag [] edges = some no_nodes
validate_dag (n ∷ nodes) edges = check_edges [] edges

unfoldable pub dependencies : Dict (List String) → List Edge → Dict (List String)
unfolding push_at
dependencies m [] = m
dependencies m (e ∷ es) = dependencies (push_at m e.target e.source) es

abbrev pub node_input : Dict (List String) → EditorNode → DagNodeInput
node_input m n = record {
  id = n.id;
  payload = n.payload;
  depends_on = some (get_or (Dict.get m n.id) []);
  task_type = n.task_type;
  model = none;
}

-- `buildDagPayload(…).nodes`
unfoldable pub build_dag_payload : List EditorNode → List Edge → List DagNodeInput
unfolding dependencies
build_dag_payload nodes edges = map (node_input (dependencies [] edges)) nodes

-- The notices of the page. `diverging` is none of the program.
pub data EditorNotice : Type 0 where
  closes_cycle : Edge → EditorNotice
  refused : EditorError → EditorNotice
  diverging : EditorNotice

-- `edges.some((e) => e.source === c.source && e.target === c.target)`
abbrev pub has_edge : List Edge → Edge → Bool
has_edge [] c = false
has_edge (e ∷ es) c = (e.source == c.source && e.target == c.target) || has_edge es c

-- The state of the page. Whether the JSON is shown, and the user id, are inputs of the page only.
pub record EditorState : Type 0 where
  pub nodes : List EditorNode
  pub edges : List Edge
  pub counter : ℕ
  pub selected_id : Option String
  pub notice : Option EditorNotice

-- What ReactFlow does for the page: `addEdge` puts a new edge behind the others.
pub record ReactFlow : Type 0 where
  pub add_edge : Edge → List Edge → List Edge
  pub add_edge-new :
      (e : Edge) (es : List Edge) → has_edge es e ≡ false → add_edge e es ≡ es ++ e ∷ []

-- The patch of a node's data: a field that it lacks is `none`.
pub data Patch : Type 0 where
  payload : Fields → Patch
  task_type : Option TaskType → Patch

abbrev pub patched : Patch → EditorNode → EditorNode
patched (payload p) n = record n { payload = p }
patched (task_type t) n = record n { task_type = t }

-- The nodes and the edges that a deletion leaves.
abbrev pub without_nodes : List String → List EditorNode → List EditorNode
without_nodes deleted nodes = select (λ n. not (includes n.id deleted)) nodes

abbrev pub without_ends : List String → List Edge → List Edge
without_ends deleted edges =
    select (λ e. not (includes e.source deleted) && not (includes e.target deleted)) edges

abbrev unless_deleted : List String → Option String → Option String
unless_deleted deleted none = none
unless_deleted deleted (some id) = if includes id deleted then none else some id

module _ (label : ℕ → String) where
  -- `makeNode`: the id is N followed by the number.
  unfoldable pub make_node : ℕ → EditorNode
  make_node n = record {
    id = label n;
    payload = field "text" (Json.str (label n)) end;
    task_type = none;
  }

  unfoldable pub initial : EditorState
  unfolding make_node
  initial = record {
    nodes = make_node 1 ∷ [];
    edges = [];
    counter = 2;
    selected_id = none;
    notice = none;
  }

  unfoldable pub add_node : EditorState → EditorState
  unfolding make_node
  add_node s = record s { nodes = s.nodes ++ make_node s.counter ∷ []; counter = s.counter + 1 }

-- `onConnect` after the check for a cycle.
abbrev connect_checked : ReactFlow → EditorState → Edge → Option Bool → EditorState
connect_checked flow s e none = record s { notice = some diverging }
connect_checked flow s e (some true) = record s { notice = some (closes_cycle e) }
connect_checked flow s e (some false) =
    if has_edge s.edges e then s else record s { notice = none; edges = flow.add_edge e s.edges }

-- An end that is missing is the empty text.
unfoldable pub on_connect : ReactFlow → EditorState → Edge → EditorState
unfolding would_create_cycle
on_connect flow s e =
    if e.source == "" || e.target == ""
    then s
    else connect_checked flow s e (would_create_cycle s.edges e.source e.target)

-- The deletion of nodes, from the keyboard or by the button, with `onNodesDelete`.
unfoldable pub delete_nodes : List String → EditorState → EditorState
delete_nodes deleted s = record s {
  nodes = without_nodes deleted s.nodes;
  edges = without_ends deleted s.edges;
  selected_id = unless_deleted deleted s.selected_id;
}

abbrev patch_at : Patch → String → List EditorNode → List EditorNode
patch_at p id = map λ n. if n.id == id then patched p n else n

unfoldable pub patch_selected : Patch → EditorState → EditorState
patch_selected p s = elim s.selected_id [
  | none ↦ s
  | some id ↦ if id == "" then s else record s { nodes = patch_at p id s.nodes }
]

-- `submit` up to the request: the local error, or the nodes that are sent.
unfoldable pub submit : EditorState → EditorState × Option (List DagNodeInput)
unfolding validate_dag build_dag_payload
submit s = elim (validate_dag s.nodes s.edges) [
  | some e ↦ (record s { notice = some (refused e) }, none)
  | none ↦ (record s { notice = none }, some (build_dag_payload s.nodes s.edges))
]
