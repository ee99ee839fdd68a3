-- ===== src/Models.antt =====
-- db/models.py: the rows of the tables. Ids are UUIDs that the program only compares, and stand
-- here as numbers; times are milliseconds unless said otherwise.
mod Enums
mod Settings
mod Pages
pub mod Agent
pub use Enums.*
pub use Settings.*
pub use Pages.*
use onecrawler_backend.Prelude.{ℕ, ℤ, String, Bool, Option, List}

abbrev pub Uuid : Type 0
Uuid = ℕ

pub record Users : Type 0 where
  pub id : Uuid
  pub name : String
  pub email : String
  pub hashed_password : String
  pub is_active : Bool
  pub user_type : String

pub record RefreshSession : Type 0 where
  pub jti : Uuid
  pub user_id : Uuid
  pub created_at : ℕ
  pub expires_at : ℕ
  pub revoked_at : Option ℕ

pub record CrawlJob : Type 0 where
  pub id : Uuid
  pub user_id : Uuid
  pub target_url : String
  pub mode : CrawlMode
  pub status : CrawlStatus
  pub settings : CrawlSettingsIn
  pub filters : Option FilterGroupIn
  pub seed_urls : Option (List String)
  pub error : Option String
  pub created_at : ℕ
  pub started_at : Option ℕ
  pub finished_at : Option ℕ
  pub urls_discovered : ℕ
  pub urls_scraped : ℕ
  pub urls_failed : ℕ
  pub url_limit : ℤ

pub record DiscoveredUrl : Type 0 where
  pub id : Uuid
  pub job_id : Uuid
  pub url : String
  pub discovered_at : ℕ
  pub status : String

pub record CrawlResultItem : Type 0 where
  pub id : Uuid
  pub job_id : Uuid
  pub url : String
  pub title : String
  pub word_count : ℕ
  pub format : ScrapingOutputFormat
  pub extracted_at : ℕ
  pub preview : String
  pub content : Payload

pub record LogLine : Type 0 where
  pub id : Uuid
  pub job_id : Uuid
  pub timestamp : ℕ
  pub level : String
  pub message : String

pub record CrawlSettingsTemplate : Type 0 where
  pub id : Uuid
  pub user_id : Uuid
  pub name : String
  pub settings : CrawlSettingsIn
  pub filters : Option FilterGroupIn
  pub created_at : ℕ
  pub updated_at : ℕ

pub record ProviderApiKey : Type 0 where
  pub user_id : Uuid
  pub provider : String
  pub api_key : String
  pub updated_at : ℕ
