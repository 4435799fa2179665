-- ===== src/Router.antt =====
-- libs/router/src/router.service.ts.
pub mod Choice
mod Examples
use ai_task_orchestrator.Base.{
  String, Bool, true, false, List, [], ◌∷◌, Option, none, some, is_some, if◌then◌else◌, ◌==◌, ◌&&◌,
  not,
}
use ai_task_orchestrator.Queue.{TaskType, simple, code, complex}
use ai_task_orchestrator.Models.{
  ModelDefinition, Provider, anthropic, openai, ollama, Clients, get_model, get_default_model,
}

unfoldable pub routing_table : TaskType → List String
routing_table simple = "llama3.2" ∷ "gpt-4o-mini" ∷ "claude-haiku-4-5-20251001" ∷ []
routing_table code = "claude-sonnet-4-6-20250514" ∷ "gpt-4o" ∷ "llama3.2" ∷ []
routing_table complex = "gpt-4o" ∷ "claude-sonnet-4-6-20250514" ∷ "llama3.2" ∷ []

-- The client of a provider is there.
unfoldable pub has_client : Clients → Provider → Bool
has_client c ollama = true
has_client c anthropic = is_some c.anthropic
has_client c openai = is_some c.openai

unfoldable pub is_available : Clients → String → Bool
unfolding get_model has_client
is_available c id = elim (get_model id) [ none ↦ false | some m ↦ has_client c m.provider ]

unfoldable pub first_available : Clients → List String → Option String
first_available c [] = none
first_available c (id ∷ ids) = if is_available c id then some id else first_available c ids

-- An empty text is no model name: it is falsy.
abbrev pub explicit : Option String → Option String
explicit none = none
explicit (some model) =
    if model == "" then none else if is_some (get_model model) then some model else none

abbrev pub candidates : Option TaskType → List String
candidates none = []
candidates (some t) = routing_table t

-- `none`: the default model is missing, a TypeError.
abbrev pub default_id : Option ModelDefinition → Option String
default_id none = none
default_id (some m) = some m.id

abbrev pub or_else : Option String → Option String → Option String
or_else (some id) other = some id
or_else none other = other

unfoldable pub resolve : Clients → Option String → Option TaskType → Option String
resolve c model task_type =
    or_else (explicit model)
      (or_else (first_available c (candidates task_type)) (default_id get_default_model))
