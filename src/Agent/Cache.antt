-- ===== src/Agent/Cache.antt =====
-- agent/executor.py: the agents of a process, the least recently used one first.
pub mod Transparent
use onecrawler_backend.Prelude.{
  ℕ, ◌<◌, String, Bool, true, false, ◌&&◌, Option, none, some, List, [], ◌∷◌, ◌++◌, length, drop,
  ltb, if◌then◌else◌, str_eq, str_append, same_text,
}
use onecrawler_backend.Agent.Llm.{ChatModel, Attempt, made, failed, build_chat_model}

pub record AgentKey : Type 0 where
  pub provider : String
  pub model : String
  pub api_key : Option String
  pub base_url : Option String

abbrev pub is_key : AgentKey → AgentKey → Bool
is_key k j =
    str_eq k.provider j.provider
    && str_eq k.model j.model
    && same_text k.api_key j.api_key
    && same_text k.base_url j.base_url

-- What an `Agent` is made from, but for the tools, the prompt and the name, which are the same for
-- all: the model, the name of its spans when tracing is on, and the budget.
pub record Agent : Type 0 where
  pub chat_model : ChatModel
  pub span_name : Option String
  pub steps : ℕ

abbrev pub max_cached_agents : ℕ
max_cached_agents = 128

abbrev pub AgentCache : Type 0
AgentCache = List (AgentKey × Agent)

abbrev pub lookup : AgentKey → AgentCache → Option Agent
lookup key [] = none
lookup key ((k, a) ∷ cache) = if is_key k key then some a else lookup key cache

abbrev pub without : AgentKey → AgentCache → AgentCache
without key [] = []
without key ((k, a) ∷ cache) =
    let rest = without key cache in if is_key k key then rest else (k, a) ∷ rest

-- `if len(cache) > _MAX_CACHED_AGENTS: cache.popitem(last=False)`
abbrev pub evict : AgentCache → AgentCache
evict cache = if ltb max_cached_agents (length cache) then drop 1 cache else cache

-- `tracing` is `tracing.ENABLED`.
abbrev pub agent_with : Bool → AgentKey → ChatModel → Agent
agent_with tracing key chat_model = record {
  chat_model = chat_model;
  span_name = if tracing then some (str_append key.provider (str_append "/" key.model)) else none;
  steps = 25;
}

abbrev pub add_agent : Bool → AgentKey → Attempt ChatModel → AgentCache → Attempt Agent × AgentCache
add_agent tracing key (failed error) cache = (failed error, cache)
add_agent tracing key (made chat_model) cache = (
  made (agent_with tracing key chat_model),
  evict (cache ++ (key, agent_with tracing key chat_model) ∷ []),
)

abbrev pub model_of : AgentKey → Attempt ChatModel
model_of key = build_chat_model key.provider key.model key.api_key key.base_url

abbrev pub reuse : Bool → AgentKey → Option Agent → AgentCache → Attempt Agent × AgentCache
reuse tracing key none cache = add_agent tracing key (model_of key) cache
reuse tracing key (some agent) cache = (made agent, without key cache ++ (key, agent) ∷ [])

unfoldable pub get_agent : Bool → AgentKey → AgentCache → Attempt Agent × AgentCache
get_agent tracing key cache = reuse tracing key (lookup key cache) cache
