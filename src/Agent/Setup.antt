-- ===== src/Agent/Setup.antt =====
-- The `/settings/agent` handlers of api/v1/agent/router.py.
pub mod Resolving
pub mod Saved
use onecrawler_backend.Prelude.{
  ℕ, String, Bool, true, false, not, ◌&&◌, ◌||◌, Option, none, some, List, [], ◌∷◌, ◌==◌,
  if◌then◌else◌, is_some, is_blank, str_eq, has_text, or_text, text_of,
}
use onecrawler_backend.Tables.{find, update, delete, insert}
use onecrawler_backend.Exec.{Exec, pure, gets, raise_if, modify, ◌>>=◌, ◌>>◌}
use onecrawler_backend.Models.{Uuid}
use onecrawler_backend.Models.Agent.{AgentSettings}
use onecrawler_backend.Backend.{Backend}
use onecrawler_backend.Agent.Llm.{default_local_model}
use onecrawler_backend.Agent.Cache.{AgentKey}

pub record LlmConfigIn : Type 0 where
  pub provider : String
  pub model : String
  pub api_key : Option String
  pub base_url : Option String

pub record SearchConfigIn : Type 0 where
  pub provider : String
  pub api_key : String

pub record AgentSettingsIn : Type 0 where
  pub llm : Option LlmConfigIn
  pub search : Option SearchConfigIn

-- what pydantic makes sure of before the handler runs
unfoldable pub check_provider_requirements : LlmConfigIn → Bool
check_provider_requirements c =
    if str_eq c.provider "openai_compatible"
    then has_text c.base_url
    else not (is_blank c.model) && has_text c.api_key

abbrev pub is_valid : Option LlmConfigIn → Bool
is_valid none = true
is_valid (some c) = check_provider_requirements c

pub record LlmConfigOut : Type 0 where
  pub provider : Option String
  pub model : Option String
  pub has_key : Bool
  pub base_url : Option String

pub record SearchConfigOut : Type 0 where
  pub provider : Option String
  pub has_key : Bool

pub record AgentSettingsOut : Type 0 where
  pub llm : LlmConfigOut
  pub search : SearchConfigOut
  pub updated_at : Option ℕ

unfoldable pub settings_to_out : Option AgentSettings → AgentSettingsOut
settings_to_out none = record {
  llm = record { provider = none; model = none; has_key = false; base_url = none };
  search = record { provider = none; has_key = false };
  updated_at = none;
}
settings_to_out (some row) = record {
  llm = record {
    provider = row.llm_provider;
    model = row.llm_model;
    has_key = is_some row.llm_api_key;
    base_url = row.llm_base_url;
  };
  search = record { provider = row.search_provider; has_key = is_some row.search_api_key };
  updated_at = some row.updated_at;
}

abbrev pub is_of : Uuid → AgentSettings → Bool
is_of user_id row = row.user_id == user_id

abbrev pub set_llm : Option LlmConfigIn → AgentSettings → AgentSettings
set_llm none row = row
set_llm (some c) row = record row {
  llm_provider = some c.provider;
  llm_model = some c.model;
  llm_api_key = c.api_key;
  llm_base_url = c.base_url;
}

abbrev pub set_search : Option SearchConfigIn → AgentSettings → AgentSettings
set_search none row = row
set_search (some c) row = record row {
  search_provider = some c.provider;
  search_api_key = some c.api_key;
}

abbrev pub set_from : AgentSettingsIn → AgentSettings → AgentSettings
set_from payload row = set_search payload.search (set_llm payload.llm row)

abbrev pub empty_settings : Uuid → ℕ → AgentSettings
empty_settings user_id now = record {
  user_id = user_id;
  llm_provider = none;
  llm_model = none;
  llm_api_key = none;
  llm_base_url = none;
  search_provider = none;
  search_api_key = none;
  updated_at = now;
}

-- `INSERT … ON CONFLICT (user_id) DO UPDATE SET …`. The clause sets the columns of the request
-- only: SQLAlchemy does not run `onupdate` for it, so `updated_at` keeps its value.
abbrev pub upsert : Uuid → AgentSettingsIn → ℕ → List AgentSettings → List AgentSettings
upsert user_id payload now rows =
    if is_some (find (is_of user_id) rows)
    then update (is_of user_id) (set_from payload) rows
    else insert (set_from payload (empty_settings user_id now)) rows

abbrev pub settings_of : Uuid → Backend → Option AgentSettings
settings_of user_id s = find (is_of user_id) s.agent_settings

unfoldable pub set_agent_settings : Uuid → AgentSettingsIn → ℕ → Exec Backend AgentSettingsOut
unfolding check_provider_requirements settings_to_out ◌>>=◌
set_agent_settings user_id payload now = do
  raise_if (not (is_valid payload.llm)) 422 ""
  raise_if (not (is_some payload.llm || is_some payload.search)) 422
      "Provide at least one of llm or search."
  modify (λ s. record s { agent_settings = upsert user_id payload now s.agent_settings })
  gets (λ s. settings_to_out (settings_of user_id s))

unfoldable pub get_agent_settings : Uuid → Exec Backend AgentSettingsOut
unfolding settings_to_out ◌>>=◌
get_agent_settings user_id = gets (λ s. settings_to_out (settings_of user_id s))

-- the columns that a scope clears
abbrev pub clear_llm : AgentSettings → AgentSettings
clear_llm row = record row {
  llm_provider = none;
  llm_model = none;
  llm_api_key = none;
  llm_base_url = none;
}

abbrev pub clear_search : AgentSettings → AgentSettings
clear_search row = record row { search_provider = none; search_api_key = none }

-- The ORM writes a row whose columns change, and then `onupdate` sets the time too.
abbrev pub touch_if : Bool → ℕ → AgentSettings → AgentSettings
touch_if changed now row = if changed then record row { updated_at = now } else row

abbrev pub has_llm : AgentSettings → Bool
has_llm row =
    is_some row.llm_provider
    || is_some row.llm_model
    || is_some row.llm_api_key
    || is_some row.llm_base_url

abbrev pub has_search : AgentSettings → Bool
has_search row = is_some row.search_provider || is_some row.search_api_key

abbrev pub clear_scope : Option String → Uuid → ℕ → List AgentSettings → List AgentSettings
clear_scope none user_id now rows = delete (is_of user_id) rows
clear_scope (some scope) user_id now rows =
    if str_eq scope "llm"
    then update (is_of user_id) (λ row. touch_if (has_llm row) now (clear_llm row)) rows
    else update (is_of user_id) (λ row. touch_if (has_search row) now (clear_search row)) rows

abbrev pub is_scope : Option String → Bool
is_scope none = true
is_scope (some scope) = str_eq scope "llm" || str_eq scope "search"

-- Without a row nothing matches, and nothing is written.
unfoldable pub clear_agent_settings : Uuid → Option String → ℕ → Exec Backend (Unit {0})
unfolding ◌>>=◌
clear_agent_settings user_id scope now = do
  raise_if (not (is_scope scope)) 422 "scope must be 'llm', 'search', or omitted."
  modify (λ s. record s { agent_settings = clear_scope scope user_id now s.agent_settings })
