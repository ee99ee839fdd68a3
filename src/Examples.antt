-- ===== src/Examples.antt =====
-- A small world for the examples of the theorems: a user, two jobs, and stand-ins for PyJWT, argon2
-- and the crawling engine.
pub mod Crawling
pub mod Accounts
pub mod Working
pub mod Results
pub mod Chatting
pub mod Migrating
pub mod Routes
use mathlib.Core.Path.{subst}
use onecrawler_backend.Prelude.{
  ℕ, ◌*◌, ◌≤◌, ◌<◌, ◌≡◌, ◌∙◌, refl, sym, ap, inl, inr, Bool, true, false, ◌&&◌, Option, none, some,
  String, List, [], ◌∷◌, arith, ltb, leb, if◌then◌else◌, pos, str_eq, eq_refl, Bool-cases,
}
use onecrawler_backend.Models.{
  Uuid, Users, CrawlJob, CrawlMode, CrawlStatus, CrawlSettingsIn, DiscoveredUrl, BrowserSettingsIn,
  LinkExtractionStrategy, ScrapingStrategy, ScrapingOutputFormat, ProxyRotationMethod, WaitUntil,
  CrawlResultItem, LogLine,
}
use onecrawler_backend.Backend.{Backend}
use onecrawler_backend.Auth.{Config, Claims, Jwt, PasswordHasher, Verdict}

abbrev pub settings : CrawlSettingsIn
settings = record {
  link_extraction_strategy = LinkExtractionStrategy.deep;
  link_extraction_limit = pos 100;
  include_link_patterns = none;
  exclude_link_patterns = none;
  scraping_strategy = ScrapingStrategy.heuristic;
  scraping_output_format = ScrapingOutputFormat.markdown;
  genai = none;
  concurrency = pos 10;
  max_retries = pos 2;
  request_timeout = pos 10;
  retry_delay = pos 1;
  proxies = none;
  proxy_rotation_method = ProxyRotationMethod.round_robin;
  browser_settings = record {
    viewport = record { width = pos 1280; height = pos 800 };
    locale = "en-US";
    timezone_id = "Asia/Dhaka";
    user_agent = none;
    headless = true;
    wait_until = WaitUntil.domcontentloaded;
    timeout = pos 30000;
  };
  enable_human_behaviors = false;
  human_behavior_settings = none;
}

abbrev pub queued_job : CrawlJob
queued_job = record {
  id = 7;
  user_id = 1;
  target_url = "https://example.com";
  mode = CrawlMode.crawler;
  status = CrawlStatus.queued;
  settings = settings;
  filters = none;
  seed_urls = none;
  error = none;
  created_at = 1000;
  started_at = none;
  finished_at = none;
  urls_discovered = 0;
  urls_scraped = 0;
  urls_failed = 0;
  url_limit = pos 100;
}

abbrev pub done_job : CrawlJob
done_job = record queued_job {
  id = 8;
  status = CrawlStatus.completed;
  created_at = 2000;
  started_at = some 3000;
  finished_at = some 9000;
  urls_discovered = 2;
}

abbrev pub url_row : Uuid → String → ℕ → DiscoveredUrl
url_row id url at = record {
  id = id;
  job_id = 8;
  url = url;
  discovered_at = at;
  status = "extracted";
}

abbrev pub alice : Users
alice = record {
  id = 1;
  name = "Alice";
  email = "alice@example.com";
  hashed_password = "secret";
  is_active = true;
  user_type = "user";
}

abbrev pub world : Backend
world = record {
  users = alice ∷ [];
  refresh_sessions = [];
  crawl_jobs = queued_job ∷ done_job ∷ [];
  discovered_urls =
      url_row 20 "https://example.com/a" 4000 ∷ url_row 21 "https://example.com/a" 5000 ∷ [];
  crawl_result_items = [];
  log_lines = [];
  templates = [];
  provider_api_keys = [];
  agent_settings = [];
  conversations = [];
  chat_messages = [];
  queue = 7 ∷ [];
  blocklist = [];
}

-- A token is its claims.
abbrev pub is_valid : ℕ → Claims → Bool
is_valid now c = leb (c.iat * 1000) now && ltb now (c.exp * 1000)

abbrev pub read_token : ℕ → Claims → Option Claims
read_token now c = if is_valid now c then some c else none

pub read_token-inv :
    (now : ℕ) (token c : Claims)
    → read_token now token ≡ some c
    → (token ≡ c) × (now < token.exp * 1000)
read_token-inv now token c e = elim (Bool-cases (is_valid now token)) [
  | inl v ↦ (ground (arith, v, e), ground (arith, v))
  | inr n ↦ absurd (ground (arith, n, e))
]

pub read_token_valid :
    (now : ℕ) (c : Claims) → c.iat * 1000 ≤ now → now < c.exp * 1000 → read_token now c ≡ some c
read_token_valid now c begun unexpired = ground (arith, begun, unexpired)

abbrev pub jwt : Jwt Claims
jwt = record {
  encode = λ c. c;
  decode = read_token;
  decode-encode = read_token_valid;
  decode_unexpired = λ now token c e.
      let (same, unexpired) = read_token-inv now token c e in
      subst (λ (x : Claims). now < x.exp * 1000) same unexpired;
  decode_stable = λ now later token c d e f.
      sym (read_token-inv now token c e).0 ∙ (read_token-inv later token d f).0;
}

-- A password is its own hash.
abbrev pub check_password : String → String → Verdict
check_password hashed password =
    if str_eq hashed password then Verdict.verified else Verdict.mismatch

abbrev pub hasher : PasswordHasher
hasher = record { hash = λ p. p; verify = check_password; verify-hash = λ p. rw (eq_refl p) }

abbrev pub config : Config
config = record { access_token_expire_minutes = 30; refresh_token_expire_days = 7 }
