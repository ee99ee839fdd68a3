-- ===== src/Crawls/Responses.antt =====
-- The responses of api/v1/crawler/schema.py, as FastAPI makes them of what a handler returns. A
-- value that does not fit a field fails the request, which is `none` here.
pub mod Lists
use onecrawler_backend.Prelude.{
  ℕ, ℤ, String, Bool, Option, none, some, List, [], ◌∷◌, map, if◌then◌else◌, str_eq,
}
use onecrawler_backend.Tables.Order.{Page, map_page}
use onecrawler_backend.Models.{
  Uuid, CrawlJob, CrawlStatus, CrawlMode, CrawlSettingsIn, DiscoveredUrl, LogLine,
}
use onecrawler_backend.Crawls.Detail.{Point, CrawlJobDetail}

pub record CrawlJobSummaryOut : Type 0 where
  pub id : Uuid
  pub target_url : String
  pub status : CrawlStatus
  pub mode : CrawlMode
  pub created_at : ℕ
  pub started_at : Option ℕ
  pub finished_at : Option ℕ
  pub urls_discovered : ℕ
  pub urls_scraped : ℕ
  pub urls_failed : ℕ
  pub url_limit : ℤ
  pub error : Option String

abbrev pub crawl_job_summary_out : CrawlJob → CrawlJobSummaryOut
crawl_job_summary_out j = record {
  id = j.id;
  target_url = j.target_url;
  status = j.status;
  mode = j.mode;
  created_at = j.created_at;
  started_at = j.started_at;
  finished_at = j.finished_at;
  urls_discovered = j.urls_discovered;
  urls_scraped = j.urls_scraped;
  urls_failed = j.urls_failed;
  url_limit = j.url_limit;
  error = j.error;
}

-- `CrawlListOut`
abbrev pub crawl_list_out : Page CrawlJob → Page CrawlJobSummaryOut
crawl_list_out page = map_page crawl_job_summary_out page

-- The points of the two histories have the time and the figure of `Point`.
pub record CrawlJobDetailOut : Type 0 where
  pub summary : CrawlJobSummaryOut
  pub settings : CrawlSettingsIn
  pub throughput_history : List Point
  pub discovery_history : List Point

abbrev pub crawl_job_detail_out : CrawlJobDetail → CrawlJobDetailOut
crawl_job_detail_out d = record {
  summary = crawl_job_summary_out d.job;
  settings = d.job.settings;
  throughput_history = d.throughput;
  discovery_history = d.discovery;
}

pub data LogLevel : Type 0 where
  info warn error debug : LogLevel

unfoldable pub read_level : String → Option LogLevel
read_level t =
    if str_eq t "info"
    then some LogLevel.info
    else if str_eq t "warn"
    then some LogLevel.warn
    else if str_eq t "error"
    then some LogLevel.error
    else if str_eq t "debug"
    then some LogLevel.debug
    else none

pub record LogLineOut : Type 0 where
  pub id : Uuid
  pub timestamp : ℕ
  pub level : LogLevel
  pub message : String

abbrev pub with_level : LogLine → Option LogLevel → Option LogLineOut
with_level l none = none
with_level l (some level) =
    some (record { id = l.id; timestamp = l.timestamp; level = level; message = l.message })

unfoldable pub log_line_out : LogLine → Option LogLineOut
unfolding read_level
log_line_out l = with_level l (read_level l.level)

pub data UrlStatus : Type 0 where
  pending extracted filtered failed : UrlStatus

unfoldable pub read_url_status : String → Option UrlStatus
read_url_status t =
    if str_eq t "pending"
    then some UrlStatus.pending
    else if str_eq t "extracted"
    then some UrlStatus.extracted
    else if str_eq t "filtered"
    then some UrlStatus.filtered
    else if str_eq t "failed"
    then some UrlStatus.failed
    else none

pub record DiscoveredUrlOut : Type 0 where
  pub id : Uuid
  pub url : String
  pub discovered_at : ℕ
  pub status : UrlStatus

abbrev pub with_url_status : DiscoveredUrl → Option UrlStatus → Option DiscoveredUrlOut
with_url_status d none = none
with_url_status d (some status) =
    some (record { id = d.id; url = d.url; discovered_at = d.discovered_at; status = status })

unfoldable pub discovered_url_out : DiscoveredUrl → Option DiscoveredUrlOut
unfolding read_url_status
discovered_url_out d = with_url_status d (read_url_status d.status)

abbrev pub add_item {ℓ} : {B : Type ℓ} → Option B → Option (List B) → Option (List B)
add_item (some b) (some bs) = some (b ∷ bs)
add_item _ _ = none

module _ {ℓ κ} {A : Type ℓ} {B : Type κ} where
  -- every item, or nothing
  unfoldable pub send_items : (A → Option B) → List A → Option (List B)
  send_items f [] = some []
  send_items f (a ∷ xs) = add_item (f a) (send_items f xs)

  abbrev pub with_items : Page A → Option (List B) → Option (Page B)
  with_items page none = none
  with_items page (some items) =
      some (record { items = items; total = page.total; limit = page.limit; offset = page.offset })

-- `LogListOut` and `DiscoveredListOut`
unfoldable pub log_list_out : Page LogLine → Option (Page LogLineOut)
unfolding log_line_out send_items
log_list_out page = with_items page (send_items log_line_out page.items)

unfoldable pub discovered_list_out : Page DiscoveredUrl → Option (Page DiscoveredUrlOut)
unfolding discovered_url_out send_items
discovered_list_out page = with_items page (send_items discovered_url_out page.items)
