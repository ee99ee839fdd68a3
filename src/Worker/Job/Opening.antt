-- ===== src/Worker/Job/Opening.antt =====
-- The first commit of `run_crawl_job` and the mode that follows it.
use mathlib.Core.Option
use onecrawler_backend.Prelude.{◌≡◌, ◌∙◌, refl, ap, Bool, true, false, some, arith, if◌then◌else◌}
use onecrawler_backend.Tables.Laws.{find-update}
use onecrawler_backend.Models.{CrawlJob, CrawlMode, CrawlStatus}
use onecrawler_backend.Backend.{Backend}
use onecrawler_backend.Crawls.{has_id}
use onecrawler_backend.Worker.Requests.{perform_all}
use onecrawler_backend.Worker.Requests.Effect.{row}
use onecrawler_backend.Worker.Engine.{Moment}
use onecrawler_backend.Worker.Settings.{Settings}
use onecrawler_backend.Worker.Modes.{Run, assign}
use onecrawler_backend.Worker.Modes.Rows.{url_count, result_count, HasRows, perform_all-HasRows}
use onecrawler_backend.Worker.Modes.Sound.{
  Base, Sound, Agrees, perform_all-Agrees, log-Sound, assign-Agrees,
}
use onecrawler_backend.Worker.Modes.Loops.{
  run_sitemap-Sound, run_link_extraction-Sound, run_crawler-Sound, run_scraper-Sound,
}
use onecrawler_backend.Worker.Job.{
  Externals, Script, run_mode, begin, start, starting, set_running, set_started, is_running,
}

pub run_mode-Sound :
    {b : Base} (x : Externals) (script : Script) (settings : Settings) (mode : CrawlMode) (r : Run)
    → Sound b r
    → Sound b (run_mode x script settings mode r).0
unfolding run_mode
run_mode-Sound x script settings CrawlMode.sitemap r h = run_sitemap-Sound x.decode_url _ r h
run_mode-Sound x script settings CrawlMode.link_extraction r h =
    run_link_extraction-Sound x.decode_url _ _ _ r h
run_mode-Sound x script settings CrawlMode.crawler r h = run_crawler-Sound x.decode_url _ _ r h
run_mode-Sound x script settings CrawlMode.scraper r h =
    run_scraper-Sound x.decode_url x.show _ _ _ r h

-- The job as its first commit leaves it, and the rows that it had before.
abbrev pub base_of : Moment → CrawlJob → Backend → Base
base_of m job db = record {
  job = record job { status = CrawlStatus.running; started_at = some (m.t 0) };
  urls = url_count job.id db;
  results = result_count job.id db;
}

pub running_of : (status : CrawlStatus) → is_running status ≡ true → status ≡ CrawlStatus.running
running_of CrawlStatus.running h = refl
running_of _ h = cc

module _ (m : Moment) (job : CrawlJob) (db : Backend) (at : row job.id db ≡ some job) where
  opened : Backend
  opened = perform_all m.meanwhile db

  opened-Agrees : Agrees job (row job.id opened)
  unfolding opened
  opened-Agrees = perform_all-Agrees m.meanwhile job job.id db (job.status, job.finished_at, at)

  opened-HasRows : HasRows job.id (url_count job.id db) (result_count job.id db) opened
  unfolding opened
  opened-HasRows =
      perform_all-HasRows job.id (url_count job.id db) (result_count job.id db) m.meanwhile db
        (record { urls_le = omega arith; results_eq = refl })

  begin-Sound :
      (rerun : Bool)
      → is_running job.status ≡ rerun
      → Sound (base_of m job db) (
          if rerun
          then assign (set_started (m.t 0)) (record { job = job; db = opened })
          else assign (set_running (m.t 0)) (record { job = job; db = opened }))
  begin-Sound true e = record {
    same =
        ap (λ (status : CrawlStatus). record job { status = status; started_at = some (m.t 0) })
          (running_of job.status e);
    at =
        assign-Agrees (set_started (m.t 0)) job.id job opened.crawl_jobs (λ j. refl)
          (λ status t. refl) opened-Agrees;
    urls = omega (arith, opened-HasRows.urls_le);
    results = omega (arith, opened-HasRows.results_eq);
    grows = omega arith;
  }
  begin-Sound false e = record {
    same = refl;
    at =
        let (status, t, e) = opened-Agrees in
        (
          CrawlStatus.running,
          t,
          find-update (has_id job.id) (set_running (m.t 0)) opened.crawl_jobs (λ j h. h)
              ∙ ap (Option.map (set_running (m.t 0))) e,
        );
    urls = omega (arith, opened-HasRows.urls_le);
    results = omega (arith, opened-HasRows.results_eq);
    grows = omega arith;
  }

  -- The first commit and its log line begin a sound run.
  pub start-Sound : Sound (base_of m job db) (start m job db)
  unfolding start opened
  start-Sound =
      log-Sound (m.id 0) (m.t 1) "info" (starting job)
        (begin (m.t 0) (record { job = job; db = perform_all m.meanwhile db }))
        (begin-Sound (is_running job.status) refl)
