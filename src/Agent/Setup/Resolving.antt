-- ===== src/Agent/Setup/Resolving.antt =====
-- How a chat reads the saved settings: `_resolve_agent_settings` of api/v1/agent/router.py.
use onecrawler_backend.Prelude.{
  String, Bool, true, false, not, ◌&&◌, Option, none, some, if◌then◌else◌, is_some, str_eq,
  has_text, or_text, text_of,
}
use onecrawler_backend.Exec.{Exec, pure, gets, raise_if, ◌>>=◌, ◌>>◌}
use onecrawler_backend.Models.{Uuid}
use onecrawler_backend.Models.Agent.{AgentSettings}
use onecrawler_backend.Backend.{Backend}
use onecrawler_backend.Agent.Llm.{default_local_model}
use onecrawler_backend.Agent.Cache.{AgentKey}
use onecrawler_backend.Agent.Setup.{settings_of}

pub record ChatRequest : Type 0 where
  pub message : String
  pub conversation_id : String
  pub provider : Option String
  pub model : Option String

pub record Resolved : Type 0 where
  pub key : AgentKey
  pub search_api_key : Option String

-- a column of the stored row, if there is one
abbrev pub stored_text : (AgentSettings → Option String) → Option AgentSettings → Option String
stored_text column none = none
stored_text column (some row) = column row

-- `payload.x or (stored.x if stored else None)`
abbrev pub override : Option String → Option String → Option String
override given stored = if has_text given then given else stored

-- `stored.llm_provider == provider`, if there is a row
abbrev pub is_same_provider : Option AgentSettings → Option String → Bool
is_same_provider none provider = false
is_same_provider (some row) none = not (is_some row.llm_provider)
is_same_provider (some row) (some p) =
    str_eq (text_of row.llm_provider) p && is_some row.llm_provider

abbrev pub no_settings : String
no_settings =
    "No LLM settings configured for your account. Call PUT /api/v1/settings/agent with {\"llm\": {...}} before using /chat, or pass provider/model matching your saved settings if you've already configured a different one."

abbrev pub is_local : Option String → Bool
is_local none = false
is_local (some p) = str_eq p "openai_compatible"

-- the model of a local server may be left out
abbrev pub model_or_default : Bool → Option String → Option String
model_or_default true model = some (or_text (text_of model) default_local_model)
model_or_default false model = model

abbrev pub is_configured :
    Bool → Option String → Option String → Option String → Option String → Bool
is_configured true provider model api_key base_url = has_text base_url
is_configured false provider model api_key base_url =
    has_text provider && has_text model && has_text api_key

abbrev pub when {ℓ} : {A : Type ℓ} → Bool → Option A → Option A
when true o = o
when false o = none

unfoldable pub resolve : ChatRequest → Option AgentSettings → Exec Backend Resolved
unfolding ◌>>=◌
resolve payload stored = do
  let provider = override payload.provider (stored_text (λ r. r.llm_provider) stored)
  let model = override payload.model (stored_text (λ r. r.llm_model) stored)
  let same = is_same_provider stored provider
  let api_key = when same (stored_text (λ r. r.llm_api_key) stored)
  let base_url = when same (stored_text (λ r. r.llm_base_url) stored)
  raise_if (not (is_configured (is_local provider) provider model api_key base_url)) 422 no_settings
  pure (record {
    key = record {
      provider = text_of provider;
      model = text_of (model_or_default (is_local provider) model);
      api_key = api_key;
      base_url = base_url;
    };
    search_api_key = stored_text (λ r. r.search_api_key) stored;
  })

unfoldable pub resolve_agent_settings : ChatRequest → Uuid → Exec Backend Resolved
unfolding resolve
resolve_agent_settings payload user_id = do
  stored ← gets (settings_of user_id)
  resolve payload stored
