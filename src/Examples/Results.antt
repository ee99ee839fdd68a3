-- ===== src/Examples/Results.antt =====
-- The theorems on the results of jobs and on target URLs at one concrete world.
use onecrawler_backend.Prelude.{
  Bool, false, ℕ, ◌+◌, ◌-◌, ◌≡◌, ◌≤◌, refl, String, Bool, true, Option, none, some, [], ◌∷◌, length,
  arith, All,
}
use Prim.Native.Nat.{min}
use onecrawler_backend.Tables.{count}
use onecrawler_backend.Tables.Order.{Page}
use onecrawler_backend.Exec.{ok}
use onecrawler_backend.Models.{CrawlMode, Uuid, CrawlResultItem, ScrapingOutputFormat, Payload}
use onecrawler_backend.Backend.{Backend}
use onecrawler_backend.Crawls.Bodies.{Url, validate_request}
use onecrawler_backend.Crawls.{CreateCrawlRequest}
use onecrawler_backend.Crawls.Bodies.Urls.{validate_request_again}
use onecrawler_backend.Data.{
  DataItemOut, data_item_detail, get_data_item, download_data_item, list_data, matches_data,
  data_of,
}
use onecrawler_backend.Data.Access.{data_item-access, IsOwn}
use onecrawler_backend.Data.Pages.{list_data-page}
use onecrawler_backend.Configuration.Dashboard.{DashboardOverviewOut, get_overview}
use onecrawler_backend.Users.Usage.{UsageOut, get_usage}
use onecrawler_backend.Users.Usage.Figures.{get_usage-get_overview}
use onecrawler_backend.Examples.{world, done_job, settings}

abbrev result : Uuid → ℕ → CrawlResultItem
result id at = record {
  id = id;
  job_id = 8;
  url = "https://example.com/a";
  title = "A";
  word_count = 3;
  format = ScrapingOutputFormat.json;
  extracted_at = at;
  preview = "a b c";
  content = Payload.text_only "a b c";
}

abbrev results_world : Backend
results_world = record world { crawl_result_items = result 40 6000 ∷ result 41 7000 ∷ [] }

data_item-access_example :
    (get_data_item 1 40 results_world ≡ (
      ok (data_item_detail (record { item = result 40 6000; target_url = done_job.target_url })),
      results_world,
    ))
    × (download_data_item 1 40 results_world ≡ (ok (Payload.text_only "a b c", 40), results_world))
data_item-access_example =
    data_item-access 1 40 results_world (result 40 6000) done_job refl (omega arith) refl

-- the database's `ILIKE`, for a pattern that every text matches
abbrev any : String → String → Bool
any text pattern = true

list_data-page_example :
    (page : Page DataItemOut) × (list_data any 1 (some 8) none none 1 0 results_world
      ≡ (ok page, results_world))
    × All (IsOwn 1 results_world.crawl_jobs) page.items
    × (page.total ≡ count (matches_data any (some 8) none none) (data_of 1 results_world))
    × (length page.items ≡ min 1 (page.total - 0))
list_data-page_example = list_data-page any 1 (some 8) none none 1 0 results_world refl

-- `urlparse` of the one URL that is looked at
abbrev parse : String → Option Url
parse url = some (record { scheme = "https"; netloc = "example.com" })

abbrev asked : CreateCrawlRequest
asked = record {
  target_url = " example.com";
  mode = CrawlMode.crawler;
  settings = settings;
  filters = none;
}

abbrev accepted : CreateCrawlRequest
accepted = record asked { target_url = "https://example.com" }

validate_request_again_example : validate_request parse (λ text. false) accepted ≡ some accepted
unfolding validate_request
validate_request_again_example = validate_request_again parse (λ text. false) asked accepted refl

get_usage-get_overview_example :
    (u : UsageOut) × (o : DashboardOverviewOut) × (get_usage (λ now. 1500) 1 9000 results_world
      ≡ (ok u, results_world))
    × (get_overview 1 results_world ≡ (ok o, results_world))
    × (u.total_jobs ≡ o.total_jobs)
    × (u.job_counts ≡ o.job_counts)
    × (u.job_counts.queued + u.job_counts.running + u.job_counts.completed + u.job_counts.failed
          + u.job_counts.cancelled
        ≡ u.total_jobs)
    × (u.urls_discovered ≡ o.urls_discovered)
    × (u.urls_scraped ≡ o.urls_scraped)
    × (u.urls_failed ≡ o.urls_failed)
    × (u.jobs_this_month ≤ u.total_jobs)
    × (u.urls_scraped_this_month ≤ u.urls_scraped)
get_usage-get_overview_example = get_usage-get_overview (λ now. 1500) 1 9000 results_world
