-- ===== src/Worker/Job/Sending.antt =====
-- That what `run_crawl_job` writes fits the responses of api/v1/crawler/schema.py.
use onecrawler_backend.Prelude.{
  ℕ, ◌≡◌, refl, true, false, String, Option, none, some, is_some, Bool-cases, Option-cases, inl,
  inr, is_blank, ◌==◌, str_append,
}
use onecrawler_backend.Exec.Yields.{Returned}
use onecrawler_backend.Models.{Uuid, CrawlJob, CrawlMode, CrawlStatus}
use onecrawler_backend.Backend.{Backend}
use onecrawler_backend.Crawls.{has_id}
use onecrawler_backend.Crawls.Reading.{get_crawl_logs, list_discovered_urls}
use onecrawler_backend.Tables.{find}
use onecrawler_backend.Crawls.Responses.{log_line_out, log_list_out, discovered_list_out}
use onecrawler_backend.Worker.Requests.{perform_all}
use onecrawler_backend.Worker.Engine.{Moment}
use onecrawler_backend.Worker.Settings.{Settings, Built, build_settings}
use onecrawler_backend.Worker.Modes.{Run, Outcome, returned, raised, assign}
use onecrawler_backend.Crawls.Responses.Lists.{
  CanSend, get_crawl_logs_sends, list_discovered_urls_sends,
}
use onecrawler_backend.Worker.Modes.Sending.{
  RunSends, perform_all-CanSend, log-CanSend, assign-CanSend, run_sitemap-CanSend,
  run_link_extraction-CanSend, run_crawler-CanSend, run_scraper-CanSend,
}
use onecrawler_backend.Worker.Modes.Loops.{if-run}
use onecrawler_backend.Worker.Job.{
  Externals, Script, run_mode, conclude, log_end, set_status, set_failed, no_pages, reject, start,
  begin, starting, is_running, set_started, set_running, status_is_cancelled, run_built, run_found,
  run_crawl_job,
}

log_end-CanSend :
    (m : Moment) (error : Option String) (status : CrawlStatus) (r : Run)
    → RunSends r
    → RunSends (log_end m error status r)
unfolding log_line_out
log_end-CanSend m none status r h = log-CanSend (m.id 0) (m.t 1) "info" _ r refl h
log_end-CanSend m (some message) status r h =
    if-run RunSends (is_blank message) (log-CanSend (m.id 0) (m.t 1) "info" _ r refl h)
      (log-CanSend (m.id 0) (m.t 1) "error" message r refl h)

conclude-CanSend : (m : Moment) (r : Run) (o : Outcome) → RunSends r → RunSends (conclude m (r, o))
unfolding conclude log_line_out
conclude-CanSend m r (returned true) h =
    log_end-CanSend m r.job.error CrawlStatus.cancelled
      (assign (set_status CrawlStatus.cancelled (m.t 0)) r)
      (assign-CanSend (set_status CrawlStatus.cancelled (m.t 0)) r h)
conclude-CanSend m r (returned false) h =
    let failed = assign (set_failed (no_pages r.job.target_url) (m.t 0)) r in
    let completed = assign (set_status CrawlStatus.completed (m.t 0)) r in
    if-run RunSends (r.job.urls_discovered == 0)
      {x = log_end m (some (no_pages r.job.target_url)) CrawlStatus.failed failed}
      {y = log_end m r.job.error CrawlStatus.completed completed}
      (log_end-CanSend m (some (no_pages r.job.target_url)) CrawlStatus.failed failed
        (assign-CanSend (set_failed (no_pages r.job.target_url) (m.t 0)) r h))
      (log_end-CanSend m r.job.error CrawlStatus.completed completed
        (assign-CanSend (set_status CrawlStatus.completed (m.t 0)) r h))
conclude-CanSend m r (raised message) h =
    log-CanSend (m.id 0) (m.t 1) "error" (str_append "Job failed: " message)
      (assign (set_failed message (m.t 0)) r) refl (assign-CanSend (set_failed message (m.t 0)) r h)

reject-CanSend :
    (m : Moment) (message : String) (r : Run) → RunSends r → RunSends (reject m message r)
unfolding reject log_line_out
reject-CanSend m message r h =
    let error = str_append "Invalid settings: " message in
    log-CanSend (m.id 0) (m.t 1) "error" error (assign (set_failed error (m.t 0)) r) refl
      (assign-CanSend (set_failed error (m.t 0)) r h)

module _ (x : Externals) (script : Script) where
  run_mode-CanSend :
      (settings : Settings) (mode : CrawlMode) (r : Run)
      → RunSends r
      → RunSends (run_mode x script settings mode r).0
  unfolding run_mode
  run_mode-CanSend settings CrawlMode.sitemap r h = run_sitemap-CanSend x.decode_url _ r h
  run_mode-CanSend settings CrawlMode.link_extraction r h =
      run_link_extraction-CanSend x.decode_url _ _ _ r h
  run_mode-CanSend settings CrawlMode.crawler r h = run_crawler-CanSend x.decode_url _ _ r h
  run_mode-CanSend settings CrawlMode.scraper r h =
      run_scraper-CanSend x.decode_url x.show _ _ _ r h

  run_built-CanSend : (made : Built) (r : Run) → RunSends r → CanSend (run_built x script made r).db
  unfolding run_built
  run_built-CanSend (Built.refused message) r h =
      reject-CanSend script.closing message
        (record r { db = perform_all script.closing.meanwhile r.db })
        (perform_all-CanSend script.closing.meanwhile r.db h)
  run_built-CanSend (Built.built settings) r h =
      let (after, o) = run_mode x script settings r.job.mode r in
      conclude-CanSend script.closing
        (record after { db = perform_all script.closing.meanwhile after.db }) o
        (perform_all-CanSend script.closing.meanwhile after.db
          (run_mode-CanSend settings r.job.mode r h))

begin-CanSend : (now : ℕ) (r : Run) → RunSends r → RunSends (begin now r)
begin-CanSend now r h =
    if-run RunSends (is_running r.job.status) {x = assign (set_started now) r}
      {y = assign (set_running now) r} (assign-CanSend (set_started now) r h)
      (assign-CanSend (set_running now) r h)

start-CanSend :
    (m : Moment) (job : CrawlJob) (db : Backend) → CanSend db → RunSends (start m job db)
unfolding start log_line_out
start-CanSend m job db h =
    let r : Run = record { job = job; db = perform_all m.meanwhile db } in
    log-CanSend (m.id 0) (m.t 1) "info" (starting job) (begin (m.t 0) r) refl
      (begin-CanSend (m.t 0) r (perform_all-CanSend m.meanwhile db h))

module _ (x : Externals) (script : Script) where
  run_found-CanSend :
      (job : CrawlJob) (db : Backend) → CanSend db → CanSend (run_found x script job db)
  unfolding run_found
  run_found-CanSend job db h =
      let r = start script.opening job db in
      elim (Bool-cases (status_is_cancelled job.status)) [
        | inl e ↦ rw e h
        | inr e ↦ rw e (
            run_built-CanSend x script (build_settings x.check r.db r.job.settings r.job.user_id) r
              (start-CanSend script.opening job db h))
      ]

  run_crawl_job-CanSend :
      (id : Uuid) (db : Backend) → CanSend db → CanSend (run_crawl_job x script id db)
  unfolding run_crawl_job
  run_crawl_job-CanSend id db h = elim (Option-cases (find (has_id id) db.crawl_jobs)) [
    | inl e ↦ rw (run_crawl_job, e) h
    | inr (job, e) ↦ rw (run_crawl_job, e) (run_found-CanSend job db h)
  ]

-- Whatever a job does, and whatever the API does meanwhile, the logs and the discovered URLs of any
-- job can still be listed: a page that the two handlers return fits its response, so no request
-- fails on a row that the worker wrote.
pub run_crawl_job_can_be_listed :
    (x : Externals) (script : Script) (id : Uuid) (db : Backend) (user job : Uuid)
    (limit offset : ℕ)
    → CanSend db
    → let after = run_crawl_job x script id db in
      Returned
        (λ page. is_some (log_list_out page) ≡ true)
        (get_crawl_logs user job limit offset after).0
      × Returned
          (λ page. is_some (discovered_list_out page) ≡ true)
          (list_discovered_urls user job limit offset after).0
run_crawl_job_can_be_listed x script id db user job limit offset h =
    let after = run_crawl_job-CanSend x script id db h in
    (
      (get_crawl_logs_sends user job limit offset).holds _ after,
      (list_discovered_urls_sends user job limit offset).holds _ after,
    )
