-- ===== src/Crawls.antt =====
-- api/v1/crawler/router.py: the handlers of `/crawls`. A handler is given the id of the user that
-- `get_current_user` returned, the id that `uuid4` draws and the time that the clock shows.
pub mod Reading
pub mod Bodies
pub mod Responses
pub mod Detail
pub mod Writes
pub mod Branches
pub mod Lifecycle
pub mod Serving
pub mod Histories
pub mod Seeds
pub mod Paging
use onecrawler_backend.Prelude.{
  ℕ, ◌≡◌, ℤ, pos, String, Bool, true, false, not, ◌&&◌, Option, none, some, List, [], ◌∷◌, map, ltb,
  leb, ◌==◌, if◌then◌else◌, str_eq, str_append, is_blank, is_empty, length,
}
use onecrawler_backend.Tables.{find, select, update, delete, insert}
use onecrawler_backend.Tables.Order.{Page, paginate, order_by}
use onecrawler_backend.Exec.{Exec, pure, gets, or_raise, raise_if, modify, ◌>>=◌, ◌>>◌}
use onecrawler_backend.Models.{
  Uuid, CrawlJob, CrawlMode, CrawlStatus, CrawlSettingsIn, FilterGroupIn, DiscoveredUrl,
  CrawlResultItem, LogLine, ScrapingOutputFormat, Payload, status_text,
}
use onecrawler_backend.Backend.{Backend}

-- `status in _ACTIVE_STATUSES`
abbrev pub is_active : CrawlStatus → Bool
is_active CrawlStatus.queued = true
is_active CrawlStatus.running = true
is_active _ = false

-- `status in (CrawlStatus.FAILED, CrawlStatus.CANCELLED)`
abbrev pub is_retryable : CrawlStatus → Bool
is_retryable CrawlStatus.failed = true
is_retryable CrawlStatus.cancelled = true
is_retryable _ = false

abbrev pub has_id : Uuid → CrawlJob → Bool
has_id job_id job = job.id == job_id

-- `CrawlJob.id == job_id, CrawlJob.user_id == current_user.id`
abbrev pub is_owned : Uuid → Uuid → CrawlJob → Bool
is_owned user_id job_id job = job.id == job_id && job.user_id == user_id

-- The select and the 404 with which each handler of one job begins.
unfoldable pub owned_job : Uuid → Uuid → Exec Backend CrawlJob
unfolding ◌>>=◌
owned_job user_id job_id = do
  or_raise (← gets (λ s. find (is_owned user_id job_id) s.crawl_jobs)) 404 "Crawl job not found"

-- `db.add(job); await db.commit(); await pool.enqueue_job("run_crawl_job", job.id, …)`
unfoldable pub submit : CrawlJob → Exec Backend CrawlJob
unfolding ◌>>=◌
submit job = do
  modify (λ s. record s { crawl_jobs = insert job s.crawl_jobs; queue = insert job.id s.queue })
  pure job

pub record CreateCrawlRequest : Type 0 where
  pub target_url : String
  pub mode : CrawlMode
  pub settings : CrawlSettingsIn
  pub filters : Option FilterGroupIn

unfoldable pub create_crawl : Uuid → CreateCrawlRequest → Uuid → ℕ → Exec Backend CrawlJob
unfolding submit
create_crawl user_id payload new_id now = submit (record {
  id = new_id;
  user_id = user_id;
  target_url = payload.target_url;
  mode = payload.mode;
  status = CrawlStatus.queued;
  settings = payload.settings;
  filters = payload.filters;
  seed_urls = none;
  error = none;
  created_at = now;
  started_at = none;
  finished_at = none;
  urls_discovered = 0;
  urls_scraped = 0;
  urls_failed = 0;
  url_limit = payload.settings.link_extraction_limit;
})

-- `db.delete(row)` and the commit
unfoldable pub remove_discovered : DiscoveredUrl → Exec Backend (Unit {0})
unfolding ◌>>=◌
remove_discovered row = modify (λ s. record s {
  discovered_urls = delete (λ (d : DiscoveredUrl). d.id == row.id) s.discovered_urls;
})

unfoldable pub delete_discovered_url : Uuid → Uuid → Uuid → Exec Backend (Unit {0})
unfolding owned_job remove_discovered
delete_discovered_url user_id job_id discovered_id = do
  owned_job user_id job_id
  row ← gets (λ s.
      find (λ (d : DiscoveredUrl). d.id == discovered_id && d.job_id == job_id) s.discovered_urls)
  found ← or_raise row 404 "Discovered URL not found"
  remove_discovered found

-- `list(dict.fromkeys(urls))`: each text once, where it first stands
abbrev without_text : String → List String → List String
without_text u [] = []
without_text u (v ∷ vs) = let rest = without_text u vs in if str_eq u v then rest else v ∷ rest

unfoldable pub first_occurrences : List String → List String
first_occurrences [] = []
first_occurrences (u ∷ us) = u ∷ without_text u (first_occurrences us)

unfoldable pub urls_to_scrape : Uuid → Backend → List String
unfolding first_occurrences
urls_to_scrape job_id s = first_occurrences (
    map (λ (d : DiscoveredUrl). d.url)
      (order_by (λ (d : DiscoveredUrl). d.discovered_at)
        (select (λ (d : DiscoveredUrl). d.job_id == job_id) s.discovered_urls)))

unfoldable pub scrape_discovered_urls :
    Uuid → Uuid → CrawlSettingsIn → Uuid → ℕ → Exec Backend CrawlJob
unfolding owned_job submit urls_to_scrape
scrape_discovered_urls user_id job_id settings new_id now = do
  source_job ← owned_job user_id job_id
  urls ← gets (urls_to_scrape job_id)
  raise_if (is_empty urls) 400 "No discovered URLs available to scrape"
  submit (record {
    id = new_id;
    user_id = source_job.user_id;
    target_url = source_job.target_url;
    mode = CrawlMode.scraper;
    status = CrawlStatus.queued;
    settings = settings;
    filters = none;
    seed_urls = some urls;
    error = none;
    created_at = now;
    started_at = none;
    finished_at = none;
    urls_discovered = 0;
    urls_scraped = 0;
    urls_failed = 0;
    url_limit = pos (length urls);
  })

-- `job.status = …; job.finished_at = …` on the row, for a job that is still active
abbrev pub cancelled_at : ℕ → CrawlJob → CrawlJob
cancelled_at now job = record job { status = CrawlStatus.cancelled; finished_at = some now }

unfoldable pub set_cancelled : ℕ → CrawlJob → Exec Backend CrawlJob
unfolding ◌>>=◌
set_cancelled now job = do
  modify (λ s. record s { crawl_jobs = update (has_id job.id) (cancelled_at now) s.crawl_jobs })
  pure (cancelled_at now job)

unfoldable pub cancel_crawl : Uuid → Uuid → ℕ → Exec Backend CrawlJob
unfolding owned_job set_cancelled
cancel_crawl user_id job_id now = do
  job ← owned_job user_id job_id
  if is_active job.status then (set_cancelled now job) else pure job

unfoldable pub retry_crawl : Uuid → Uuid → Uuid → ℕ → Exec Backend CrawlJob
unfolding owned_job submit
retry_crawl user_id job_id new_id now = do
  source_job ← owned_job user_id job_id
  raise_if (not (is_retryable source_job.status)) 409
      "Only failed or cancelled crawl jobs can be retried"
  submit (record {
    id = new_id;
    user_id = source_job.user_id;
    target_url = source_job.target_url;
    mode = source_job.mode;
    status = CrawlStatus.queued;
    settings = source_job.settings;
    filters = source_job.filters;
    seed_urls = source_job.seed_urls;
    error = none;
    created_at = now;
    started_at = none;
    finished_at = none;
    urls_discovered = 0;
    urls_scraped = 0;
    urls_failed = 0;
    url_limit = source_job.url_limit;
  })

-- `db.delete(job)` and the commit: the relationships take the rows of the job with it.
unfoldable pub remove_job : CrawlJob → Exec Backend (Unit {0})
unfolding ◌>>=◌
remove_job job = modify (λ s. record s {
  crawl_jobs = delete (has_id job.id) s.crawl_jobs;
  discovered_urls = delete (λ (d : DiscoveredUrl). d.job_id == job.id) s.discovered_urls;
  crawl_result_items = delete (λ (r : CrawlResultItem). r.job_id == job.id) s.crawl_result_items;
  log_lines = delete (λ (l : LogLine). l.job_id == job.id) s.log_lines;
})

unfoldable pub delete_crawl : Uuid → Uuid → Exec Backend (Unit {0})
unfolding owned_job remove_job
delete_crawl user_id job_id = do
  job ← owned_job user_id job_id
  raise_if (is_active job.status) 409 "Cancel the crawl before deleting it"
  remove_job job
