-- ===== src/Models/Providers.antt =====
-- How llm.service.ts reads the answers of the providers' SDKs.
use Prim.Native.String
use ai_task_orchestrator.Base.{
  ℕ, String, Bool, true, List, [], ◌∷◌, Option, none, some, get_or, ◌==◌, if◌then◌else◌, is_some,
}
use ai_task_orchestrator.Base.Result.{Result, ok, err}
use ai_task_orchestrator.Models.{
  Provider, anthropic, openai, ollama, LlmResponse, LlmError, provider_error, Clients,
}

-- A block of an answer of Anthropic; `other` is a block of another type.
pub data ContentBlock : Type 0 where
  text : String → ContentBlock
  other : ContentBlock

pub record AnthropicMessage : Type 0 where
  pub content : List ContentBlock
  pub model : String
  pub input_tokens : ℕ
  pub output_tokens : ℕ

-- `response.usage`
pub record Usage : Type 0 where
  pub prompt_tokens : Option ℕ
  pub completion_tokens : Option ℕ

-- `choices` holds the content of each choice's message, where there is one.
pub record ChatCompletion : Type 0 where
  pub choices : List (Option String)
  pub model : String
  pub usage : Option Usage

-- `.filter((block) => block.type === 'text').map((block) => block.text).join('')`
abbrev pub texts : List ContentBlock → String
texts [] = ""
texts (text s ∷ blocks) = String.◌++◌ s (texts blocks)
texts (other ∷ blocks) = texts blocks

abbrev first_content : List (Option String) → String
first_content [] = ""
first_content (c ∷ cs) = get_or c ""

abbrev tokens : Option Usage → (Usage → Option ℕ) → ℕ
tokens none of = 0
tokens (some u) of = get_or (of u) 0

abbrev pub from_message : Result String AnthropicMessage → Result LlmError LlmResponse
from_message (err e) = err (provider_error e)
from_message (ok m) = ok record {
  content = texts m.content;
  model = m.model;
  input_tokens = m.input_tokens;
  output_tokens = m.output_tokens;
}

abbrev pub from_completion : Result String ChatCompletion → Result LlmError LlmResponse
from_completion (err e) = err (provider_error e)
from_completion (ok c) = ok record {
  content = first_content c.choices;
  model = c.model;
  input_tokens = tokens c.usage (λ u. u.prompt_tokens);
  output_tokens = tokens c.usage (λ u. u.completion_tokens);
}

-- What the SDKs answer to a model, a prompt and a limit of tokens: `messages.create`, and
-- `chat.completions.create` of OpenAI and of Ollama.
pub record Sdks : Type 0 where
  pub create_message : String → String → ℕ → Result String AnthropicMessage
  pub complete_openai : String → String → ℕ → Result String ChatCompletion
  pub complete_ollama : String → String → ℕ → Result String ChatCompletion

-- `key ? new … : null`
abbrev if_key : {A : Type 0} → Option String → A → Option A
if_key none client = none
if_key (some key) client = if key == "" then none else some client

-- The constructor: the clients for the keys that are set.
unfoldable pub clients_of : Sdks → (anthropic_key openai_key : Option String) → Clients
clients_of sdks anthropic_key openai_key = record {
  anthropic =
      if_key anthropic_key
        λ model prompt limit. from_message (sdks.create_message model prompt limit);
  openai =
      if_key openai_key
        λ model prompt limit. from_completion (sdks.complete_openai model prompt limit);
  ollama = λ model prompt limit. from_completion (sdks.complete_ollama model prompt limit);
}

-- Whether the provider of a model has its key.
abbrev pub has_key : (anthropic_key openai_key : Option String) → Provider → Bool
has_key a o anthropic = is_some (if_key a a)
has_key a o openai = is_some (if_key o o)
has_key a o ollama = true
