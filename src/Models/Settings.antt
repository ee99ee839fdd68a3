-- ===== src/Models/Settings.antt =====
-- The request bodies of api/v1/crawler/schema.py, which the tables keep as JSON: `model_dump()`
-- writes every field of a body, so a stored object is the record itself. A float is only passed
-- on, and stands here as the text of its literal. A field of type `Literal[…]` is a data type.
mod Literals
pub use Literals.*
use onecrawler_backend.Prelude.{ℤ, String, Bool, Option, List}
use onecrawler_backend.Models.Enums.{ScrapingOutputFormat}

pub record ProxySettingsIn : Type 0 where
  pub server : String
  pub username : Option String
  pub password : Option String

pub record ViewportIn : Type 0 where
  pub width : ℤ
  pub height : ℤ

pub record BrowserSettingsIn : Type 0 where
  pub viewport : ViewportIn
  pub locale : String
  pub timezone_id : String
  pub user_agent : Option String
  pub headless : Bool
  pub wait_until : WaitUntil
  pub timeout : ℤ

pub record HumanBehaviorSettingsIn : Type 0 where
  pub min_delay : String
  pub max_delay : String
  pub max_scrolls : ℤ
  pub min_mouse_moves : ℤ
  pub max_mouse_moves : ℤ

pub record GenAiSettingsIn : Type 0 where
  pub provider : GenAiProvider
  pub model_name : String
  pub api_key : Option String
  pub base_url : Option String
  pub timeout : Option String
  pub output_schema : List (String × String)

pub record FilterNodeIn : Type 0 where
  pub kind : FilterKind
  pub start : Option String
  pub end : Option String
  pub keywords : Option (List String)
  pub types : Option (List String)
  pub extensions : Option (List String)
  pub query : Option String
  pub threshold : Option String

pub record FilterGroupIn : Type 0 where
  pub mode : FilterGroupMode
  pub chain : List FilterNodeIn

pub record CrawlSettingsIn : Type 0 where
  pub link_extraction_strategy : LinkExtractionStrategy
  pub link_extraction_limit : ℤ
  pub include_link_patterns : Option (List String)
  pub exclude_link_patterns : Option (List String)
  pub scraping_strategy : ScrapingStrategy
  pub scraping_output_format : ScrapingOutputFormat
  pub genai : Option GenAiSettingsIn
  pub concurrency : ℤ
  pub max_retries : ℤ
  pub request_timeout : ℤ
  pub retry_delay : ℤ
  pub proxies : Option (List ProxySettingsIn)
  pub proxy_rotation_method : ProxyRotationMethod
  pub browser_settings : BrowserSettingsIn
  pub enable_human_behaviors : Bool
  pub human_behavior_settings : Option HumanBehaviorSettingsIn
