-- ===== src/Worker/Settings.antt =====
-- worker/settings_builder.py: the arguments that the engine's constructors are given. What those
-- constructors refuse is theirs: `build_settings` is given it as `check`.
mod FieldTypes
pub mod Filters
pub mod Texts
pub use FieldTypes.{FieldType, BaseType}
unfoldable pub use FieldTypes.{
  base_type, after, before_last, has_newline, optional_inner, parse_field_type, build_output_schema,
}
use Prim.Native.Char.{code}
use Prim.Native.String.{String}
use mathlib.Core.Option
use onecrawler_backend.Prelude.{
  ℤ, Bool, true, false, ◌&&◌, Option, none, some, List, [], ◌∷◌, map, is_blank, str_append, str_eq,
  ◌==◌, if◌then◌else◌,
}
use onecrawler_backend.Tables.{find}
use onecrawler_backend.Models.{
  Uuid, CrawlSettingsIn, GenAiSettingsIn, ProxySettingsIn, BrowserSettingsIn, ViewportIn, WaitUntil,
  HumanBehaviorSettingsIn, GenAiProvider, LinkExtractionStrategy, ScrapingStrategy,
  ScrapingOutputFormat, ProxyRotationMethod, ProviderApiKey, provider_text,
}
use onecrawler_backend.Backend.{Backend}

-- Python's truth value of an optional list: an empty one counts as none.
abbrev pub or_nothing {ℓ} : {A : Type ℓ} → Option (List A) → Option (List A)
or_nothing none = none
or_nothing (some []) = none
or_nothing (some (x ∷ xs)) = some (x ∷ xs)

-- `s.strip('/')`
unfoldable pub strip_left : String → String
strip_left String.[] = String.[]
strip_left (String.◌∷◌ c s) = if code c == 47 then strip_left s else String.◌∷◌ c s

unfoldable pub strip_right : String → String
strip_right String.[] = String.[]
strip_right (String.◌∷◌ c s) =
    let rest = strip_right s in
    if is_blank rest && code c == 47 then String.[] else String.◌∷◌ c rest

unfoldable pub link_pattern : String → String
unfolding strip_left strip_right
link_pattern keyword = str_append "/" (str_append (strip_right (strip_left keyword)) "/*")

unfoldable pub to_link_patterns : Option (List String) → Option (List String)
unfolding link_pattern
to_link_patterns keywords = Option.map (map link_pattern) (or_nothing keywords)

pub record LlmSettings : Type 0 where
  pub provider : GenAiProvider
  pub model_name : String
  pub api_key : Option String
  pub output_schema : Option (List (String × FieldType))
  pub base_url : Option String
  pub timeout : Option String

-- `HumanBehaviorSettings`: none, the engine's defaults, or what the job asks for.
pub data HumanBehavior : Type 0 where
  off : HumanBehavior
  defaults : HumanBehavior
  chosen : HumanBehaviorSettingsIn → HumanBehavior

pub record BrowserKwargs : Type 0 where
  pub viewport : ViewportIn
  pub locale : String
  pub timezone_id : String
  pub headless : Bool
  pub wait_until : WaitUntil
  pub timeout : ℤ
  pub user_agent : Option String

pub record Settings : Type 0 where
  pub link_extraction_strategy : LinkExtractionStrategy
  pub link_extraction_limit : ℤ
  pub include_link_patterns : Option (List String)
  pub exclude_link_patterns : Option (List String)
  pub scraping_strategy : ScrapingStrategy
  pub scraping_output_format : ScrapingOutputFormat
  pub genai : Option LlmSettings
  pub concurrency : ℤ
  pub max_retries : ℤ
  pub request_timeout : ℤ
  pub retry_delay : ℤ
  pub proxies : Option (List ProxySettingsIn)
  pub proxy_rotation_method : ProxyRotationMethod
  pub browser_settings : BrowserKwargs
  pub show_progress : Bool
  pub human_behavior_settings : HumanBehavior

-- `db.get(ProviderApiKey, (user_id, provider))`
abbrev pub provider_key : Uuid → String → Backend → Option ProviderApiKey
provider_key user_id provider db =
    find (λ (k : ProviderApiKey). k.user_id == user_id && str_eq k.provider provider)
      db.provider_api_keys

-- the key of the request, or the one that the user has saved for the provider
unfoldable pub genai_key : Backend → Uuid → GenAiSettingsIn → Option String
genai_key db user_id g = elim g.api_key [
  | some key ↦ some key
  | none ↦
      Option.map (λ (k : ProviderApiKey). k.api_key)
        (provider_key user_id (provider_text g.provider) db)
]

unfoldable pub llm_settings : Backend → Uuid → GenAiSettingsIn → LlmSettings
unfolding genai_key build_output_schema
llm_settings db user_id g = record {
  provider = g.provider;
  model_name = g.model_name;
  api_key = genai_key db user_id g;
  output_schema = build_output_schema g.output_schema;
  base_url = g.base_url;
  timeout = g.timeout;
}

-- `if s.browser_settings.user_agent:`
abbrev pub non_blank : Option String → Option String
non_blank none = none
non_blank (some t) = if is_blank t then none else some t

abbrev pub browser_kwargs : BrowserSettingsIn → BrowserKwargs
browser_kwargs b = record {
  viewport = b.viewport;
  locale = b.locale;
  timezone_id = b.timezone_id;
  headless = b.headless;
  wait_until = b.wait_until;
  timeout = b.timeout;
  user_agent = non_blank b.user_agent;
}

abbrev pub human_behavior : Bool → Option HumanBehaviorSettingsIn → HumanBehavior
human_behavior false h = HumanBehavior.off
human_behavior true none = HumanBehavior.defaults
human_behavior true (some h) = HumanBehavior.chosen h

unfoldable pub settings_of : Backend → CrawlSettingsIn → Uuid → Settings
unfolding llm_settings to_link_patterns
settings_of db s user_id = record {
  link_extraction_strategy = s.link_extraction_strategy;
  link_extraction_limit = s.link_extraction_limit;
  include_link_patterns = to_link_patterns s.include_link_patterns;
  exclude_link_patterns = to_link_patterns s.exclude_link_patterns;
  scraping_strategy = s.scraping_strategy;
  scraping_output_format = s.scraping_output_format;
  genai = Option.map (llm_settings db user_id) s.genai;
  concurrency = s.concurrency;
  max_retries = s.max_retries;
  request_timeout = s.request_timeout;
  retry_delay = s.retry_delay;
  proxies = or_nothing s.proxies;
  proxy_rotation_method = s.proxy_rotation_method;
  browser_settings = browser_kwargs s.browser_settings;
  show_progress = false;
  human_behavior_settings = human_behavior s.enable_human_behaviors s.human_behavior_settings;
}

-- The constructed settings, or the message of what a constructor raised.
pub data Built : Type 0 where
  built : Settings → Built
  refused : String → Built

-- `check` is what the engine's constructors say of their arguments: the message of an exception,
-- or none.
unfoldable pub build_settings :
    (Settings → Option String) → Backend → CrawlSettingsIn → Uuid → Built
unfolding settings_of
build_settings check db s user_id = elim (check (settings_of db s user_id)) [
  | none ↦ Built.built (settings_of db s user_id)
  | some message ↦ Built.refused message
]
