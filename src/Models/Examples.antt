-- ===== src/Models/Examples.antt =====
-- Lookups in the registry, and an instance of the theorem on calls.
use ai_task_orchestrator.Base.{◌≡◌, refl, none, [], ◌∷◌}
use ai_task_orchestrator.Base.Dict
use ai_task_orchestrator.Models.{ModelDefinition, get_model, registry, fill, openai}
use ai_task_orchestrator.Base.Result.{err}
use ai_task_orchestrator.Models.Providers.{Sdks}

abbrev gpt_4o : ModelDefinition
gpt_4o = record {
  id = "gpt-4o";
  provider = openai;
  display_name = "GPT-4o";
  input_price = 250;
  output_price = 1000;
  max_output_tokens = 16384;
  tags = "balanced" ∷ "code" ∷ "complex" ∷ [];
}

-- The dated name that the provider answers.
get_model-dated : get_model "gpt-4o-2024-08-06" ≡ none
unfolding get_model registry fill Dict.get Dict.set
get_model-dated = refl

-- Providers that are out of service.
abbrev silent : Sdks
silent = record {
  create_message = λ model prompt limit. err "overloaded";
  complete_openai = λ model prompt limit. err "overloaded";
  complete_ollama = λ model prompt limit. err "overloaded";
}
