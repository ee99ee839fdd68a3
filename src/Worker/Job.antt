-- ===== src/Worker/Job.antt =====
-- `run_crawl_job` of worker/tasks.py.
pub mod Opening
pub mod Concluding
pub mod Ending
pub mod Cancellation
pub mod Sending
pub mod Early
use onecrawler_backend.Prelude.{
  ℕ, String, Bool, true, false, Option, none, some, List, ◌==◌, if◌then◌else◌, is_blank, str_append,
}
use onecrawler_backend.Tables.{find}
use onecrawler_backend.Models.{
  Uuid, CrawlJob, CrawlMode, CrawlStatus, Content, status_text, mode_text,
}
use onecrawler_backend.Backend.{Backend}
use onecrawler_backend.Crawls.{has_id}
use onecrawler_backend.Worker.Requests.{Request, perform_all}
use onecrawler_backend.Worker.Engine.{Moment, Fetch, Stream, ScrapedItem}
use onecrawler_backend.Worker.Settings.{Settings, Built, build_settings}
use onecrawler_backend.Worker.Settings.Filters.{Chain, build_filter_chain}
use onecrawler_backend.Worker.Modes.{
  Run, Outcome, returned, raised, assign, log, run_sitemap, run_link_extraction, run_crawler,
  run_scraper,
}

-- What the program does not implement: the engine, `unquote`, the printing of a number, the test of
-- a float against 0, and what the engine's constructors refuse.
pub record Externals : Type 0 where
  pub sitemap_urls : Settings → String → Fetch
  pub extract_links : Settings → String → Fetch
  pub stream_links : Settings → String → Stream String
  pub crawl : Settings → Option Chain → String → Stream Content
  pub scrape : Settings → List String → Stream ScrapedItem
  pub decode_url : String → String
  pub show : ℕ → String
  pub nonzero : String → Option String
  pub check : Settings → Option String

-- What one execution draws outside the loops: what the API did before the first commit and before
-- the last one, and the ids and clock readings of those commits and their log lines.
pub record Script : Type 0 where
  pub opening : Moment
  pub after_scrape : Moment
  pub closing : Moment

unfoldable pub run_mode : Externals → Script → Settings → CrawlMode → Run → Run × Outcome
run_mode x script settings CrawlMode.sitemap r =
    run_sitemap x.decode_url (x.sitemap_urls settings r.job.target_url) r
run_mode x script settings CrawlMode.link_extraction r =
    run_link_extraction x.decode_url settings.link_extraction_strategy
      (x.extract_links settings r.job.target_url) (x.stream_links settings r.job.target_url) r
run_mode x script settings CrawlMode.crawler r =
    run_crawler x.decode_url settings.scraping_output_format
      (x.crawl settings (build_filter_chain x.nonzero r.job.filters) r.job.target_url) r
run_mode x script settings CrawlMode.scraper r =
    run_scraper x.decode_url x.show settings.scraping_output_format script.after_scrape
      (x.scrape settings) r

abbrev pub set_status : CrawlStatus → ℕ → CrawlJob → CrawlJob
set_status status now job = record job { status = status; finished_at = some now }

abbrev pub set_failed : String → ℕ → CrawlJob → CrawlJob
set_failed message now job = record job {
  status = CrawlStatus.failed;
  error = some message;
  finished_at = some now;
}

-- `if job.error:`
abbrev pub log_end : Moment → Option String → CrawlStatus → Run → Run
log_end m none status r = log (m.id 0) (m.t 1) "info" (str_append "Job " (status_text status)) r
log_end m (some message) status r =
    if is_blank message
    then log (m.id 0) (m.t 1) "info" (str_append "Job " (status_text status)) r
    else log (m.id 0) (m.t 1) "error" message r

abbrev pub no_pages : String → String
no_pages target_url = str_append "No pages could be loaded from " target_url

-- the end of the `try` block, and its `except`
unfoldable pub conclude : Moment → Run × Outcome → Run
conclude m (r, returned true) =
    log_end m r.job.error CrawlStatus.cancelled
      (assign (set_status CrawlStatus.cancelled (m.t 0)) r)
conclude m (r, returned false) =
    if r.job.urls_discovered == 0
    then log_end m (some (no_pages r.job.target_url)) CrawlStatus.failed
        (assign (set_failed (no_pages r.job.target_url) (m.t 0)) r)
    else log_end m r.job.error CrawlStatus.completed
        (assign (set_status CrawlStatus.completed (m.t 0)) r)
conclude m (r, raised message) =
    log (m.id 0) (m.t 1) "error" (str_append "Job failed: " message)
      (assign (set_failed message (m.t 0)) r)

-- what the API did before the last commit
abbrev pub settle : Moment → Run × Outcome → Run × Outcome
settle m (r, o) = (record r { db = perform_all m.meanwhile r.db }, o)

-- `job.status = RUNNING; job.started_at = now_ms()`: a column that already has the value is not
-- written.
abbrev pub set_running : ℕ → CrawlJob → CrawlJob
set_running now job = record job { status = CrawlStatus.running; started_at = some now }

abbrev pub set_started : ℕ → CrawlJob → CrawlJob
set_started now job = record job { started_at = some now }

abbrev pub is_running : CrawlStatus → Bool
is_running CrawlStatus.running = true
is_running _ = false

abbrev pub begin : ℕ → Run → Run
begin now r =
    if is_running r.job.status then assign (set_started now) r else assign (set_running now) r

abbrev pub starting : CrawlJob → String
starting job =
    str_append "Starting " (str_append (mode_text job.mode) (str_append " job for " job.target_url))

-- the session after the first commit and the line that it logs
unfoldable pub start : Moment → CrawlJob → Backend → Run
start m job db =
    log (m.id 0) (m.t 1) "info" (starting job)
      (begin (m.t 0) (record { job = job; db = perform_all m.meanwhile db }))

-- the `except` round `build_settings`
unfoldable pub reject : Moment → String → Run → Run
reject m message r =
    let error = str_append "Invalid settings: " message in
    log (m.id 0) (m.t 1) "error" error (assign (set_failed error (m.t 0)) r)

unfoldable pub run_built : Externals → Script → Built → Run → Run
unfolding run_mode conclude reject
run_built x script (Built.refused message) r =
    reject script.closing message (record r { db = perform_all script.closing.meanwhile r.db })
run_built x script (Built.built settings) r =
    conclude script.closing (settle script.closing (run_mode x script settings r.job.mode r))

abbrev pub status_is_cancelled : CrawlStatus → Bool
status_is_cancelled CrawlStatus.cancelled = true
status_is_cancelled _ = false

unfoldable pub run_found : Externals → Script → CrawlJob → Backend → Backend
run_found x script job db =
    let r = start script.opening job db in
    if status_is_cancelled job.status
    then db
    else (run_built x script (build_settings x.check r.db r.job.settings r.job.user_id) r).db

-- An execution that runs to its end. One that arq stops, at its `job_timeout` or when the worker
-- shuts down, is not among them: the `CancelledError` is no `Exception`, so that neither `except`
-- catches it, nothing more is written, and the row stays as the last commit left it.
unfoldable pub run_crawl_job : Externals → Script → Uuid → Backend → Backend
run_crawl_job x script job_id db = elim (find (has_id job_id) db.crawl_jobs) [
  | none ↦ db
  | some job ↦ run_found x script job db
]
