-- ===== src/Agent/Setup/Saved.antt =====
-- What the `/settings/agent` handlers save, as the chat handlers read it.
use mathlib.Core.Option
use onecrawler_backend.Prelude.{
  Bool, ◌||◌, ℕ, ◌≡◌, ◌∙◌, refl, ap, inl, inr, String, true, false, Option, none, some, List, [],
  ◌∷◌, ◌==◌, ==_refl, arith, Bool-cases, Option-cases, is_blank, has_text, or_text, text_of, str_eq,
  eq_refl, if◌then◌else◌,
}
use onecrawler_backend.Tables.{find}
use onecrawler_backend.Tables.Laws.{find-append, find-update}
use onecrawler_backend.Exec.{ok}
use onecrawler_backend.Models.{Uuid}
use onecrawler_backend.Models.Agent.{AgentSettings}
use onecrawler_backend.Backend.{Backend}
use onecrawler_backend.Agent.Llm.{
  ChatModel, made, default_local_model, no_api_key, build_chat_model,
}
use onecrawler_backend.Agent.Setup.{
  LlmConfigIn, SearchConfigIn, AgentSettingsIn, set_agent_settings, check_provider_requirements,
  upsert, is_of, set_from, set_llm, set_search, empty_settings,
}
use onecrawler_backend.Agent.Setup.Resolving.{
  ChatRequest, Resolved, resolve, resolve_agent_settings,
}

set_each-user :
    (llm : Option LlmConfigIn) (search : Option SearchConfigIn) (row : AgentSettings)
    → (set_search search (set_llm llm row)).user_id ≡ row.user_id
set_each-user none none row = refl
set_each-user none (some k) row = refl
set_each-user (some c) none row = refl
set_each-user (some c) (some k) row = refl

set_from-user :
    (payload : AgentSettingsIn) (row : AgentSettings) → (set_from payload row).user_id ≡ row.user_id
set_from-user payload row = set_each-user payload.llm payload.search row

-- The row that a save leaves: the user's old one, or an empty one, with the columns of the request.
upsert_found :
    (user : Uuid) (payload : AgentSettingsIn) (now : ℕ) (rows : List AgentSettings)
    → (base : AgentSettings) × (find (is_of user) (upsert user payload now rows)
        ≡ some (set_from payload base))
upsert_found user payload now rows = elim (Option-cases (find (is_of user) rows)) [
  | inl n ↦ (
    empty_settings user now,
    rw n (
        find-append (is_of user) rows (set_from payload (empty_settings user now) ∷ []) n
        ∙ rw (set_from-user payload (empty_settings user now), ==_refl user)),
  )
  | inr (row, f) ↦ (
    row,
    rw f (
        find-update (is_of user) (set_from payload) rows
          (λ r h. ap (λ i. i == user) (set_from-user payload r) ∙ h)
        ∙ ap (Option.map (set_from payload)) f),
  )
]

-- the key under which a chat without overrides asks for its agent
abbrev pub model_for : LlmConfigIn → String
model_for c =
    if str_eq c.provider "openai_compatible" then or_text c.model default_local_model else c.model

-- a chat that leaves the provider and the model to the saved settings
abbrev pub plain : String → String → ChatRequest
plain message conversation_id = record {
  message = message;
  conversation_id = conversation_id;
  provider = none;
  model = none;
}

-- what a chat without overrides resolves a saved configuration to
abbrev resolved : LlmConfigIn → Option String → Resolved
resolved c search_api_key = record {
  key = record {
    provider = c.provider;
    model = model_for c;
    api_key = c.api_key;
    base_url = c.base_url;
  };
  search_api_key = search_api_key;
}

-- the search key of a row with one saved over it
abbrev search_key : Option SearchConfigIn → AgentSettings → Option String
search_key none row = row.search_api_key
search_key (some k) row = some k.api_key

-- A row with a valid configuration resolves to it.
resolve-row :
    (message conversation_id : String) (c : LlmConfigIn) (row : AgentSettings) (s : Backend)
    → row.llm_provider ≡ some c.provider
    → row.llm_model ≡ some c.model
    → row.llm_api_key ≡ c.api_key
    → row.llm_base_url ≡ c.base_url
    → check_provider_requirements c ≡ true
    → is_blank c.provider ≡ false
    → resolve (plain message conversation_id) (some row) s ≡ (ok (resolved c row.search_api_key), s)
unfolding resolve check_provider_requirements
resolve-row message conversation_id c row s provider model api_key base_url valid named =
    elim (Bool-cases (str_eq c.provider "openai_compatible")) [
      | inl e ↦
          let based : has_text c.base_url ≡ true = ground (arith, e, valid) in
          rw (provider, model, api_key, base_url, eq_refl c.provider, e, based)
      | inr e ↦
          let modelled : is_blank c.model ≡ false = ground (arith, e, valid) in
          let keyed : has_text c.api_key ≡ true = ground (arith, e, valid) in
          rw (provider, model, api_key, base_url, eq_refl c.provider, e, named, modelled, keyed)
    ]

resolve-set :
    (message conversation_id : String) (c : LlmConfigIn) (search : Option SearchConfigIn)
    (row : AgentSettings) (s : Backend)
    → check_provider_requirements c ≡ true
    → is_blank c.provider ≡ false
    → resolve (plain message conversation_id) (some (set_search search (set_llm (some c) row))) s
      ≡ (ok (resolved c (search_key search row)), s)
resolve-set message conversation_id c none row s =
    resolve-row message conversation_id c (set_llm (some c) row) s refl refl refl refl
resolve-set message conversation_id c (some k) row s =
    resolve-row message conversation_id c (set_search (some k) (set_llm (some c) row)) s refl refl
      refl refl

-- the providers that `build_chat_model` knows
abbrev pub is_supported : String → Bool
is_supported p =
    str_eq p "openai"
    || str_eq p "openrouter"
    || str_eq p "anthropic"
    || str_eq p "google"
    || str_eq p "openai_compatible"

supported_named : (p : String) → is_supported p ≡ true → is_blank p ≡ false
supported_named String.[] h = cc
supported_named (String.◌∷◌ x p) h = refl

-- A valid configuration of a provider that is known is enough for a chat model.
build_chat_model-made :
    (c : LlmConfigIn) (model : String)
    → check_provider_requirements c ≡ true
    → is_supported c.provider ≡ true
    → (m : ChatModel) × (build_chat_model c.provider model c.api_key c.base_url ≡ made m)
unfolding build_chat_model check_provider_requirements
build_chat_model-made c model valid supported = elim (Bool-cases (str_eq c.provider "openai")) [
  | inl e ↦ (ChatModel.open_ai model c.api_key none, rw e refl)
  | inr a ↦ elim (Bool-cases (str_eq c.provider "openrouter")) [
    | inl e ↦ (ChatModel.open_router model c.api_key, rw (a, e) refl)
    | inr b ↦ elim (Bool-cases (str_eq c.provider "anthropic")) [
      | inl e ↦ (ChatModel.anthropic model c.api_key, rw (a, b, e) refl)
      | inr d ↦ elim (Bool-cases (str_eq c.provider "google")) [
        | inl e ↦ (ChatModel.gemini model c.api_key, rw (a, b, d, e) refl)
        | inr g ↦
            let e : str_eq c.provider "openai_compatible" ≡ true = rw (a, b, d, g) at supported in
            let based : has_text c.base_url ≡ true = ground (arith, e, valid) in
            (
              ChatModel.open_ai (or_text model default_local_model)
                  (some (or_text (text_of c.api_key) no_api_key)) c.base_url,
              rw (a, b, d, g, e, based) refl,
            )
      ]
    ]
  ]
]

-- Settings that were accepted, with one of the five providers that the program supports, are enough
-- to make the agent's chat model, whatever was saved before: a chat without overrides resolves to
-- the provider, the model, the key and the base URL that were saved last, and `build_chat_model` makes
-- a model of these without an error.
pub set_agent_settings-resolve :
    (user : Uuid) (c : LlmConfigIn) (search : Option SearchConfigIn) (now : ℕ)
    (message conversation_id : String) (s : Backend)
    → check_provider_requirements c ≡ true
    → is_supported c.provider ≡ true
    → let after = (set_agent_settings user (record { llm = some c; search = search }) now s).1 in
      (search_api_key : Option String) × (m : ChatModel) × (resolve_agent_settings
          (plain message conversation_id)
          user
          after
        ≡ (
          ok (record {
            key = record {
              provider = c.provider;
              model = model_for c;
              api_key = c.api_key;
              base_url = c.base_url;
            };
            search_api_key = search_api_key;
          }),
          after,
        ))
      × (build_chat_model c.provider (model_for c) c.api_key c.base_url ≡ made m)
unfolding set_agent_settings resolve_agent_settings
set_agent_settings-resolve user c search now message conversation_id s valid supported =
    let payload : AgentSettingsIn = record { llm = some c; search = search } in
    let (base, found) = upsert_found user payload now s.agent_settings in
    let after : Backend = record s { agent_settings = upsert user payload now s.agent_settings } in
    let named = supported_named c.provider supported in
    let (m, built) = build_chat_model-made c (model_for c) valid supported in
    (
      search_key search base,
      m,
      rw valid (
          ap (λ o. resolve (plain message conversation_id) o after) found
          ∙ resolve-set message conversation_id c search base after valid named),
      built,
    )
