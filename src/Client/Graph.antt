-- ===== src/Client/Graph.antt =====
-- apps/web/src/components/DagGraph.tsx: `buildGraph`. A vertical position is twice that of the source,
-- so that half a row is whole.
use Prim.Native.String
use ai_task_orchestrator.Base.{
  ℕ, suc, ◌+◌, ◌-◌, ◌*◌, String, Bool, true, false, List, [], ◌∷◌, ◌++◌, map, Option, none, some,
  get_or, ltb, if◌then◌else◌, length, ◌==◌,
}
use ai_task_orchestrator.Base.Dict
use ai_task_orchestrator.Base.Dict.{Dict}
use ai_task_orchestrator.Workflow.{NodeStatus, pending, ready, active, completed, failed}
use ai_task_orchestrator.Workflows.{DagStatusNode}
use ai_task_orchestrator.Client.Polling.{DagStatus}

abbrev pub col_w : ℕ
col_w = 230

abbrev pub row_h : ℕ
row_h = 90

pub record StatusStyle : Type 0 where
  pub bg : String
  pub border : String
  pub text : String

abbrev pub status_style : NodeStatus → StatusStyle
status_style pending = record { bg = "#1e293b"; border = "#475569"; text = "#cbd5e1" }
status_style ready = record { bg = "#1e293b"; border = "#475569"; text = "#cbd5e1" }
status_style active = record { bg = "#78350f"; border = "#f59e0b"; text = "#fde68a" }
status_style completed = record { bg = "#064e3b"; border = "#10b981"; text = "#a7f3d0" }
status_style failed = record { bg = "#4c0519"; border = "#f43f5e"; text = "#fecdd3" }

-- A node as it is drawn: what depends on the DAG and the selection.
pub record GraphNode : Type 0 where
  pub id : String
  pub x : ℕ
  pub double_y : ℕ
  pub status : NodeStatus
  pub style : StatusStyle
  pub pulses : Bool
  pub selected : Bool

pub record GraphEdge : Type 0 where
  pub id : String
  pub source : String
  pub target : String
  pub animated : Bool
  pub stroke : String

-- `new Map(dag.nodes.map((n) => [n.id, n.status]))`
unfoldable pub status_map : Dict NodeStatus → List DagStatusNode → Dict NodeStatus
status_map m [] = m
status_map m (n ∷ ns) = status_map (Dict.set m n.id n.status) ns

abbrev pub max : ℕ → ℕ → ℕ
max a b = if ltb a b then b else a

-- `Math.max(1, ...dag.layers.map((l) => l.length))`
abbrev pub tallest : List (List String) → ℕ
tallest [] = 1
tallest (l ∷ ls) = max (length l) (tallest ls)

abbrev is_active : NodeStatus → Bool
is_active active = true
is_active _ = false

abbrev is_selected : Option String → String → Bool
is_selected none id = false
is_selected (some s) id = id == s

module _ (status_of : Dict NodeStatus) (selected : Option String) where
  abbrev pub graph_node : (col double_y : ℕ) → String → GraphNode
  graph_node col double_y id =
      let status = get_or (Dict.get status_of id) pending in
      record {
        id = id;
        x = col * col_w;
        double_y = double_y;
        status = status;
        style = status_style status;
        pulses = is_active status;
        selected = is_selected selected id;
      }

  abbrev pub layer_nodes : (col double_offset row : ℕ) → List String → List GraphNode
  layer_nodes col double_offset row [] = []
  layer_nodes col double_offset row (id ∷ ids) =
      graph_node col (double_offset + 2 * (row * row_h)) id
      ∷ layer_nodes col double_offset (suc row) ids

  abbrev pub all_nodes : (high col : ℕ) → List (List String) → List GraphNode
  all_nodes high col [] = []
  all_nodes high col (l ∷ ls) =
      layer_nodes col ((high - length l) * row_h) 0 l ++ all_nodes high (suc col) ls

abbrev is_some_active : Option NodeStatus → Bool
is_some_active none = false
is_some_active (some s) = is_active s

abbrev graph_edge : Bool → (target dep : String) → GraphEdge
graph_edge target_active target dep = record {
  id = String.◌++◌ dep (String.◌++◌ "->" target);
  source = dep;
  target = target;
  animated = target_active;
  stroke = if target_active then "#f59e0b" else "#475569";
}

unfoldable pub all_edges : Dict NodeStatus → List DagStatusNode → List GraphEdge
all_edges status_of [] = []
all_edges status_of (n ∷ ns) =
    map (graph_edge (is_some_active (Dict.get status_of n.id)) n.id) n.depends_on
    ++ all_edges status_of ns

unfoldable pub build_graph : DagStatus → Option String → List GraphNode × List GraphEdge
unfolding status_map all_edges
build_graph dag selected =
    let status_of = status_map [] dag.nodes in
    (
      all_nodes status_of selected (tallest dag.meta.layers) 0 dag.meta.layers,
      all_edges status_of dag.nodes,
    )
