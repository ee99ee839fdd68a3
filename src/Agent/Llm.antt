-- ===== src/Agent/Llm.antt =====
-- agent/llm.py. The classes of deepharness stand here as the arguments that they are made from;
-- `temperature=0` is the same for every model of OpenAI and OpenRouter.
use onecrawler_backend.Prelude.{
  String, Option, none, some, if◌then◌else◌, str_eq, has_text, or_text, text_of,
}

pub data ChatModel : Type 0 where
  -- the model, the key and the base URL
  open_ai : String → Option String → Option String → ChatModel
  open_router : String → Option String → ChatModel
  anthropic : String → Option String → ChatModel
  gemini : String → Option String → ChatModel

-- a `ValueError`
pub data ModelError : Type 0 where
  no_base_url : ModelError
  unsupported : String → ModelError

pub data Attempt {ℓ} (A : Type ℓ) : Type ℓ where
  made : A → Attempt A
  failed : ModelError → Attempt A

abbrev pub default_local_model : String
default_local_model = "local-model"

abbrev pub no_api_key : String
no_api_key = "no-key"

unfoldable pub build_chat_model :
    String → String → Option String → Option String → Attempt ChatModel
build_chat_model provider model api_key base_url =
    if str_eq provider "openai"
    then made (ChatModel.open_ai model api_key none)
    else if str_eq provider "openrouter"
    then made (ChatModel.open_router model api_key)
    else if str_eq provider "anthropic"
    then made (ChatModel.anthropic model api_key)
    else if str_eq provider "google"
    then made (ChatModel.gemini model api_key)
    else if str_eq provider "openai_compatible"
    then (if has_text base_url
        then made (
            ChatModel.open_ai (or_text model default_local_model)
              (some (or_text (text_of api_key) no_api_key)) base_url)
        else failed no_base_url)
    else failed (unsupported provider)
