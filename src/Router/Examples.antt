-- ===== src/Router/Examples.antt =====
-- Instances of the theorems on routing, with no API key set.
use ai_task_orchestrator.Base.{none, some}
use ai_task_orchestrator.Base.Result.{ok}
use ai_task_orchestrator.Queue.{complex}
use ai_task_orchestrator.Models.{Clients}
use ai_task_orchestrator.Router.{resolve}
use ai_task_orchestrator.Router.Choice.{IsRouted, resolve-IsRouted}

abbrev local_only : Clients
local_only = record {
  anthropic = none;
  openai = none;
  ollama = λ model prompt limit.
      ok (record { content = prompt; model = model; input_tokens = 1; output_tokens = 1 });
}

fallback_example : IsRouted local_only none (resolve local_only none (some complex))
fallback_example = resolve-IsRouted local_only none (some complex)
