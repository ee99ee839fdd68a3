-- ===== src/Crawls/Bodies.antt =====
-- The bodies of api/v1/crawler/schema.py as pydantic reads them: the defaults of `CrawlSettingsIn`
-- and the validators of a `CreateCrawlRequest`. A body of settings holds the entries that the agent's tools send; the rest
-- of `CrawlSettingsIn` then has its defaults. `urlparse` is Python's, `none` for its `ValueError`.
pub mod Urls
use onecrawler_backend.Prelude.{
  ℤ, pos, String, Bool, true, false, not, ◌&&◌, ◌||◌, Option, none, some, List, [], ◌∷◌,
  if◌then◌else◌, is_blank, str_eq, str_append, strip, contains,
}
use onecrawler_backend.Crawls.{CreateCrawlRequest}
use onecrawler_backend.Models.{
  CrawlMode, FilterNodeIn, FilterGroupIn, CrawlSettingsIn, ViewportIn, BrowserSettingsIn,
  LinkExtractionStrategy, ScrapingStrategy, ScrapingOutputFormat, ProxyRotationMethod, WaitUntil,
}

abbrev pub default_browser_settings : ViewportIn → BrowserSettingsIn
default_browser_settings viewport = record {
  viewport = viewport;
  locale = "en-US";
  timezone_id = "Asia/Dhaka";
  user_agent = none;
  headless = true;
  wait_until = WaitUntil.domcontentloaded;
  timeout = pos 30000;
}

abbrev pub default_settings : ViewportIn → CrawlSettingsIn
default_settings viewport = record {
  link_extraction_strategy = LinkExtractionStrategy.deep;
  link_extraction_limit = pos 50;
  include_link_patterns = none;
  exclude_link_patterns = none;
  scraping_strategy = ScrapingStrategy.heuristic;
  scraping_output_format = ScrapingOutputFormat.json;
  genai = none;
  concurrency = pos 10;
  max_retries = pos 2;
  request_timeout = pos 10;
  retry_delay = pos 1;
  proxies = none;
  proxy_rotation_method = ProxyRotationMethod.round_robin;
  browser_settings = default_browser_settings viewport;
  enable_human_behaviors = false;
  human_behavior_settings = none;
}

-- an entry of the `settings` object, named by its key
pub data Entry : Type 0 where
  link_extraction_limit concurrency : ℤ → Entry
  scraping_strategy : String → Entry
  include_link_patterns exclude_link_patterns : List String → Entry
  enable_human_behaviors : Bool → Entry

-- the object, `browser_settings.viewport` with the other entries
pub record SettingsBody : Type 0 where
  pub viewport : ViewportIn
  pub entries : List Entry

unfoldable pub parse_strategy : String → Option ScrapingStrategy
parse_strategy t =
    if str_eq t "heuristic"
    then some ScrapingStrategy.heuristic
    else if str_eq t "genai"
    then some ScrapingStrategy.genai
    else if str_eq t "markdownify"
    then some ScrapingStrategy.markdownify
    else none

unfoldable pub parse_mode : String → Option CrawlMode
parse_mode t =
    if str_eq t "sitemap"
    then some CrawlMode.sitemap
    else if str_eq t "link_extraction"
    then some CrawlMode.link_extraction
    else if str_eq t "crawler"
    then some CrawlMode.crawler
    else if str_eq t "scraper"
    then some CrawlMode.scraper
    else none

abbrev pub with_strategy : Option ScrapingStrategy → CrawlSettingsIn → Option CrawlSettingsIn
with_strategy none s = none
with_strategy (some t) s = some (record s { scraping_strategy = t })

-- A value that does not fit its field is refused.
unfoldable pub read_entry : Entry → CrawlSettingsIn → Option CrawlSettingsIn
unfolding parse_strategy
read_entry (link_extraction_limit n) s = some (record s { link_extraction_limit = n })
read_entry (concurrency n) s = some (record s { concurrency = n })
read_entry (scraping_strategy t) s = with_strategy (parse_strategy t) s
read_entry (include_link_patterns ps) s = some (record s { include_link_patterns = some ps })
read_entry (exclude_link_patterns ps) s = some (record s { exclude_link_patterns = some ps })
read_entry (enable_human_behaviors b) s = some (record s { enable_human_behaviors = b })

abbrev pub read_next : List Entry → Option CrawlSettingsIn → Option CrawlSettingsIn
read_next es none = none
read_next [] (some s) = some s
read_next (e ∷ es) (some s) = read_next es (read_entry e s)

unfoldable pub read_settings : SettingsBody → Option CrawlSettingsIn
unfolding read_entry
read_settings body = read_next body.entries (some (default_settings body.viewport))

pub record Url : Type 0 where
  pub scheme : String
  pub netloc : String

abbrev pub is_http : Option Url → Bool
is_http none = false
is_http (some url) =
    (str_eq url.scheme "http" || str_eq url.scheme "https") && not (is_blank url.netloc)

unfoldable pub with_scheme : String → String
unfolding contains
with_scheme url = if contains "://" url then url else str_append "https://" url

-- `none` is the `ValueError`.
unfoldable pub normalize_target_url : (String → Option Url) → String → Option String
unfolding with_scheme strip
normalize_target_url urlparse value =
    let url = with_scheme (strip value) in if is_http (urlparse url) then some url else none

-- `_validate_date`; `strptime` tells whether Python's reads the text as a date
abbrev pub is_date : (String → Bool) → Option String → Bool
is_date strptime none = true
is_date strptime (some value) = strptime value

unfoldable pub validate_chain : (String → Bool) → List FilterNodeIn → Bool
validate_chain strptime [] = true
validate_chain strptime (node ∷ chain) =
    is_date strptime node.start && is_date strptime node.end && validate_chain strptime chain

abbrev pub validate_filters : (String → Bool) → Option FilterGroupIn → Bool
validate_filters strptime none = true
validate_filters strptime (some group) = validate_chain strptime group.chain

abbrev pub with_target_url : CreateCrawlRequest → Option String → Option CreateCrawlRequest
with_target_url r none = none
with_target_url r (some url) = some (record r { target_url = url })

-- The validators of the fields of a `CreateCrawlRequest`; `none` is a `ValidationError`.
unfoldable pub validate_request :
    (String → Option Url) → (String → Bool) → CreateCrawlRequest → Option CreateCrawlRequest
unfolding normalize_target_url validate_chain
validate_request urlparse strptime r =
    if validate_filters strptime r.filters
    then with_target_url r (normalize_target_url urlparse r.target_url)
    else none
