-- ===== src/Backend.antt =====
-- What the API and the worker share: the database, the job queue and the blocklist in Redis.
use onecrawler_backend.Prelude.{ℕ, List}
use onecrawler_backend.Models.{
  Uuid, Users, RefreshSession, CrawlJob, DiscoveredUrl, CrawlResultItem, LogLine,
  CrawlSettingsTemplate, ProviderApiKey,
}
use onecrawler_backend.Models.Agent.{AgentSettings, Conversation, ChatMessage}

pub record Backend : Type 0 where
  pub users : List Users
  pub refresh_sessions : List RefreshSession
  pub crawl_jobs : List CrawlJob
  pub discovered_urls : List DiscoveredUrl
  pub crawl_result_items : List CrawlResultItem
  pub log_lines : List LogLine
  pub templates : List CrawlSettingsTemplate
  pub provider_api_keys : List ProviderApiKey
  pub agent_settings : List AgentSettings
  pub conversations : List Conversation
  pub chat_messages : List ChatMessage
  -- the job ids handed to `pool.enqueue_job`, oldest first
  pub queue : List Uuid
  -- the keys `blocklist:{jti}`, each with the millisecond at which Redis drops it
  pub blocklist : List (Uuid × ℕ)
