-- ===== src/Models.antt =====
-- libs/cost-governor/src/model-registry.ts, cost-tracker.service.ts and llm.service.ts. Prices are in
-- cents per million tokens, so a cost is a whole number of units of 10⁻⁸ US dollars.
pub mod Registry
pub mod Providers
mod Examples
use ai_task_orchestrator.Base.{
  ℕ, ◌+◌, ◌*◌, String, Bool, true, false, List, [], ◌∷◌, map, Option, none, some, get_or, select,
  includes, is_some, if◌then◌else◌,
}
use ai_task_orchestrator.Base.Dict.{Dict, get, set, values}
use ai_task_orchestrator.Base.Result.{Result, ok, err}

pub data Provider : Type 0 where
  anthropic openai ollama : Provider

pub record ModelDefinition : Type 0 where
  pub id : String
  pub provider : Provider
  pub display_name : String
  pub input_price : ℕ
  pub output_price : ℕ
  pub max_output_tokens : ℕ
  pub tags : List String

abbrev pub models : List ModelDefinition
models =
    record {
      id = "claude-haiku-4-5-20251001";
      provider = anthropic;
      display_name = "Claude Haiku 4.5";
      input_price = 80;
      output_price = 400;
      max_output_tokens = 8192;
      tags = "fast" ∷ "cheap" ∷ "simple" ∷ [];
    }
    ∷ record {
      id = "claude-sonnet-4-6-20250514";
      provider = anthropic;
      display_name = "Claude Sonnet 4.6";
      input_price = 300;
      output_price = 1500;
      max_output_tokens = 16384;
      tags = "balanced" ∷ "code" ∷ [];
    }
    ∷ record {
      id = "gpt-4o-mini";
      provider = openai;
      display_name = "GPT-4o Mini";
      input_price = 15;
      output_price = 60;
      max_output_tokens = 16384;
      tags = "fast" ∷ "cheap" ∷ "simple" ∷ [];
    }
    ∷ record {
      id = "gpt-4o";
      provider = openai;
      display_name = "GPT-4o";
      input_price = 250;
      output_price = 1000;
      max_output_tokens = 16384;
      tags = "balanced" ∷ "code" ∷ "complex" ∷ [];
    }
    ∷ record {
      id = "llama3.2";
      provider = ollama;
      display_name = "Llama 3.2 (Local)";
      input_price = 0;
      output_price = 0;
      max_output_tokens = 2048;
      tags = "local" ∷ "free" ∷ "simple" ∷ [];
    }
    ∷ []

-- The constructor's loop fills the map.
unfoldable pub fill : Dict ModelDefinition → List ModelDefinition → Dict ModelDefinition
unfolding set
fill m [] = m
fill m (d ∷ ds) = fill (set m d.id d) ds

unfoldable pub registry : Dict ModelDefinition
unfolding fill
registry = fill [] models

unfoldable pub get_model : String → Option ModelDefinition
unfolding registry get
get_model id = get registry id

unfoldable pub get_models_by_tag : String → List ModelDefinition
unfolding registry values
get_models_by_tag tag = select (λ m. includes tag m.tags) (values registry)

unfoldable pub get_all_models : List ModelDefinition
unfolding registry values
get_all_models = values registry

-- `none` would be a TypeError at its uses.
unfoldable pub get_default_model : Option ModelDefinition
unfolding registry get
get_default_model = get registry "llama3.2"

pub record CostRecord : Type 0 where
  pub task_id : String
  pub model : String
  pub input_tokens : ℕ
  pub output_tokens : ℕ
  pub cost_usd : ℕ

-- The counters that `record` advances.
pub record CostMetrics : Type 0 where
  pub task_cost_usd : ℕ
  pub input_tokens : ℕ
  pub output_tokens : ℕ

-- `model?.inputPricePerMToken ?? 0`
abbrev pub price : (ModelDefinition → ℕ) → Option ModelDefinition → ℕ
price side none = 0
price side (some m) = side m

unfoldable pub track : CostMetrics → String → String → ℕ → ℕ → CostMetrics × CostRecord
unfolding get_model
track metrics task_id model_id input output =
    let model = get_model model_id in
    let cost =
      input * price (λ m. m.input_price) model + output * price (λ m. m.output_price) model in
    (
      record {
        task_cost_usd = metrics.task_cost_usd + cost;
        input_tokens = metrics.input_tokens + input;
        output_tokens = metrics.output_tokens + output;
      },
      record {
        task_id = task_id;
        model = model_id;
        input_tokens = input;
        output_tokens = output;
        cost_usd = cost;
      },
    )

pub record LlmResponse : Type 0 where
  pub content : String
  pub model : String
  pub input_tokens : ℕ
  pub output_tokens : ℕ

pub data LlmError : Type 0 where
  unknown_model : String → LlmError
  not_configured : Provider → LlmError
  provider_error : String → LlmError

-- A provider's SDK: model, prompt and token limit to a response or its own error. `none` where no
-- API key is set; the Ollama client is always there.
pub record Clients : Type 0 where
  pub anthropic : Option (String → String → ℕ → Result LlmError LlmResponse)
  pub openai : Option (String → String → ℕ → Result LlmError LlmResponse)
  pub ollama : String → String → ℕ → Result LlmError LlmResponse

abbrev pub call_client :
    Provider
    → Option (String → String → ℕ → Result LlmError LlmResponse)
    → ModelDefinition
    → String
    → Result LlmError LlmResponse
call_client p none m prompt = err (not_configured p)
call_client p (some send) m prompt = send m.id prompt m.max_output_tokens

abbrev pub client_for :
    Clients → Provider → Option (String → String → ℕ → Result LlmError LlmResponse)
client_for c anthropic = c.anthropic
client_for c openai = c.openai
client_for c ollama = some c.ollama

-- `LlmService.call`, once the rate limiter has given its token.
unfoldable pub call : Clients → String → String → Result LlmError LlmResponse
unfolding get_model
call clients model_id prompt = elim (get_model model_id) [
  | none ↦ err (unknown_model model_id)
  | some m ↦ call_client m.provider (client_for clients m.provider) m prompt
]
