-- ===== src/Client/Examples.antt =====
-- Instances of the theorems on the client.
use mathlib.Core.List.{Memᴰ}
use ai_task_orchestrator.Base.{
  ℕ, zero, suc, eq_iff, ◌≢◌, arith, ◌≡◌, ◌≤◌, ◌<◌, ◌+◌, ◌*◌, refl, String, true, false, List, [],
  ◌∷◌, ◌++◌, map, none, some, count, IsDistinct, length,
}
use ai_task_orchestrator.Base.Dict
use ai_task_orchestrator.Base.Integer.{pred, succ, is_zero}
use ai_task_orchestrator.Base.Json.{end}
use ai_task_orchestrator.Base.Result.{ok}
use ai_task_orchestrator.Stream.{Stage, TaskFlowEvent}
use ai_task_orchestrator.Jobs.{Effect}
use ai_task_orchestrator.Workflow.{NodeStatus, DagNodeInput, DagMeta, deps_of}
use ai_task_orchestrator.Workflow.Memory.{memory, blank}
use ai_task_orchestrator.Workflow.Sort.{
  topological_layers, collect_ids, add_nodes, init_graph, add_edges, add_edge, peel,
  release_frontier, release_children, check_processed,
}
use ai_task_orchestrator.Workflows.{DagStatusNode, create_dag}
use ai_task_orchestrator.Chaos.{ChaosDirective, inject_latency}
use ai_task_orchestrator.Client.Requests.{Reply, succeeded, refused, unreachable, no_message}
use ai_task_orchestrator.Client.Feed.{
  Report, opened, flow, mounted, handle_all, event_key, flow_buffer_max, handle_all-bounded,
}
use ai_task_orchestrator.Client.Costs.{CostSummary, cost_ticks, no_costs}
use ai_task_orchestrator.Client.Polling.{DagStatus, first_poll, is_terminal, poll, poll-stops}
use ai_task_orchestrator.Client.Graph.{
  GraphNode, build_graph, status_map, tallest, row_h, col_w, graph_node,
}
use ai_task_orchestrator.Client.Drawing.{build_graph-columns}
use ai_task_orchestrator.Client.ChaosPage.{active_at, remaining_sec}
use ai_task_orchestrator.Client.Presets.{fan_nodes, fan_nodes-created}

abbrev started : TaskFlowEvent
started = record {
  ts = "2026-04-18";
  job_id = "1";
  queue_name = "tasks-user-alice";
  user_id = "alice";
  stage = Stage.active;
}

abbrev told_twice : List (Report ℕ)
told_twice = opened ∷ flow (some started) ∷ flow none ∷ flow (some started) ∷ []

handle_all-bounded_example :
    IsDistinct (map event_key (handle_all mounted told_twice).flow_events)
    × (length (handle_all mounted told_twice).flow_events ≤ flow_buffer_max)
    × (length (handle_all mounted told_twice).seen ≤ 500)
handle_all-bounded_example = handle_all-bounded told_twice

abbrev spent : CostSummary ℕ
spent = record { ts = "2026-04-18"; total_cost_usd = 3; available = true; fault = none }

abbrev cost_replies : List (Reply (CostSummary ℕ))
cost_replies = succeeded (ok spent) ∷ unreachable "offline" ∷ succeeded (ok spent) ∷ []

cost_read : (cost_ticks no_costs cost_replies).error ≡ none
unfolding cost_ticks
cost_read = refl

abbrev shown_node : String → List String → NodeStatus → DagStatusNode
shown_node id needs status = record {
  id = id;
  depends_on = needs;
  job_id = none;
  status = status;
  result = none;
  failed_reason = none;
}

abbrev shown : NodeStatus → NodeStatus → DagStatus
shown a b = record {
  meta = record {
    dag_id = "dag-1";
    user_id = "alice";
    created_at = "2026-04-18";
    node_ids = "A" ∷ "B" ∷ [];
    layers = ("A" ∷ []) ∷ ("B" ∷ []) ∷ [];
  };
  nodes = shown_node "A" [] a ∷ shown_node "B" ("A" ∷ []) b ∷ [];
}

abbrev all_done : DagStatus
all_done = shown NodeStatus.completed NodeStatus.completed

abbrev waits : List (Reply DagStatus)
waits = succeeded (ok (shown NodeStatus.active NodeStatus.pending)) ∷ refused "500" no_message ∷ []

poll-stops_example :
    poll first_poll (waits ++ succeeded (ok all_done) ∷ [])
    ≡ (record { dag = some all_done; error = none; polling = false }, [])
unfolding is_terminal
poll-stops_example = poll-stops first_poll waits [] all_done refl (refl, (tt, tt)) refl

-- While the coordinator has stored that A is completed, and not yet that B is ready, a page that asks
-- stops for good.
poll_race :
    (poll first_poll (
      succeeded (ok (shown NodeStatus.completed NodeStatus.pending))
      ∷ succeeded (ok all_done)
      ∷ [])).1
    ≡ succeeded (ok all_done) ∷ []
unfolding poll is_terminal
poll_race = refl

abbrev drawn_nodes : List DagNodeInput
drawn_nodes =
    record { id = "A"; payload = end; depends_on = none; task_type = none; model = none }
    ∷ record {
      id = "B";
      payload = end;
      depends_on = some ("A" ∷ []);
      task_type = none;
      model = none;
    }
    ∷ []

abbrev drawn_a : GraphNode
drawn_a = graph_node (status_map [] all_done.nodes) none 0 0 "A"

abbrev drawn_b : GraphNode
drawn_b = graph_node (status_map [] all_done.nodes) none 1 0 "B"

layers_found : topological_layers drawn_nodes ≡ ok all_done.meta.layers
unfolding topological_layers collect_ids add_nodes init_graph add_edges add_edge peel
    release_frontier release_children check_processed Dict.get Dict.set pred succ is_zero
layers_found = refl

a_drawn : Memᴰ drawn_a (build_graph all_done none).0
unfolding build_graph
a_drawn = Memᴰ.head refl

b_drawn : Memᴰ drawn_b (build_graph all_done none).0
unfolding build_graph
b_drawn = Memᴰ.tail (Memᴰ.head refl)

build_graph-columns_example :
    (drawn_a.double_y + 2 * row_h ≤ 2 * (tallest all_done.meta.layers * row_h))
    × (0 < count drawn_a.id (deps_of drawn_nodes drawn_b.id) → drawn_a.x + col_w ≤ drawn_b.x)
build_graph-columns_example =
    build_graph-columns drawn_nodes all_done none drawn_a drawn_b layers_found a_drawn b_drawn

abbrev slow_llm : ChaosDirective
slow_llm = record {
  action = inject_latency;
  issued_at = 1000;
  until = 16000;
  latency_ms = some 35000;
}

still_active : active_at 14500 (some (some slow_llm)) ≡ some slow_llm
unfolding active_at
still_active = refl

seconds_left : remaining_sec 14500 (active_at 14500 (some (some slow_llm))) ≡ 2
unfolding active_at
seconds_left = refl

-- A fan of width 2.
abbrev m_label : ℕ → String
m_label zero = "M0"
m_label (suc n) = "M1"

m_label-injective : (m n : ℕ) → m < 2 → n < 2 → m_label m ≡ m_label n → m ≡ n
m_label-injective zero zero h k e = refl
m_label-injective zero (suc n) h k e = absurd (ground (arith, e, eq_iff "M0" "M1"))
m_label-injective (suc m) zero h k e = absurd (ground (arith, e, eq_iff "M1" "M0"))
m_label-injective (suc m) (suc n) h k e = omega (arith, h, k)

m_label-apart : (n : ℕ) → n < 2 → (m_label n ≢ "root") × (m_label n ≢ "sink")
m_label-apart zero h =
    (λ e. ground (arith, e, eq_iff "M0" "root"), λ e. ground (arith, e, eq_iff "M0" "sink"))
m_label-apart (suc n) h =
    (λ e. ground (arith, e, eq_iff "M1" "root"), λ e. ground (arith, e, eq_iff "M1" "sink"))

fan_nodes_example :
    (t : memory.Store) × (first : List Effect) × (m : DagMeta) × (create_dag memory
        (λ n. n.id)
        "dag-1"
        "2026-04-18"
        "demo"
        none
        blank
        (fan_nodes m_label 2)
      ≡ ok ((t, first), m))
fan_nodes_example =
    fan_nodes-created m_label 2 memory (λ n. n.id) "dag-1" "2026-04-18" blank
      (m_label-injective, m_label-apart)
