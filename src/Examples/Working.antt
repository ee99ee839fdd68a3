-- ===== src/Examples/Working.antt =====
-- The theorems on the worker at one concrete world and script.
use onecrawler_backend.Prelude.{
  ℕ, true, is_some, ◌+◌, ◌*◌, ◌≤◌, ◌≡◌, refl, none, some, [], ◌∷◌, arith,
}
use onecrawler_backend.Models.{CrawlJob, CrawlStatus, Content}
use onecrawler_backend.Worker.Requests.{Request, perform, perform_all}
use onecrawler_backend.Worker.Requests.Effect.{row}
use onecrawler_backend.Crawls.{cancel_crawl}
use onecrawler_backend.Crawls.Reading.{get_crawl_logs, list_discovered_urls}
use onecrawler_backend.Worker.Engine.{Moment, Fetch, Stream}
use onecrawler_backend.Worker.Settings.{build_settings, settings_of}
use onecrawler_backend.Worker.Modes.{run_crawler, each, is_cancelled}
use onecrawler_backend.Worker.Job.{Externals, Script, run_crawl_job, run_mode, start, set_status}
use onecrawler_backend.Worker.Job.Opening.{base_of}
use onecrawler_backend.Worker.Job.Concluding.{Ended}
use onecrawler_backend.Worker.Job.Ending.{run_crawl_job_ends}
use onecrawler_backend.Worker.Job.Cancellation.{cancel_is_honoured, late_cancel_is_lost, mode_end}
use onecrawler_backend.Worker.Live.{IsCancelled}
use onecrawler_backend.Worker.Job.Early.{early_cancel_is_lost}
use onecrawler_backend.Worker.Job.Sending.{run_crawl_job_can_be_listed}
use onecrawler_backend.Crawls.Responses.{log_list_out, discovered_list_out, discovered_url_out}
use onecrawler_backend.Exec.Yields.{Returned}
use onecrawler_backend.Examples.{world, queued_job, settings}

abbrev quiet : ℕ → Moment
quiet n = record { meanwhile = []; id = λ k. n * 10 + k; t = λ k. n * 1000 + k }

-- Alice cancels her job.
abbrev cancelling : ℕ → Moment
cancelling n = record (quiet n) { meanwhile = Request.cancel 1 7 (n * 1000) ∷ [] }

abbrev page : Content
page = Content.printed "A page."

-- an engine that yields what the argument says in every mode
abbrev engine : Stream Content → Externals
engine pages = record {
  sitemap_urls = λ s url. Fetch.fetched [];
  extract_links = λ s url. Fetch.fetched [];
  stream_links = λ s url. Stream.finished;
  crawl = λ s chain url. pages;
  scrape = λ s urls. Stream.finished;
  decode_url = λ url. url;
  show = λ n. "n";
  nonzero = λ t. some t;
  check = λ s. none;
}

abbrev undisturbed : Script
undisturbed = record { opening = quiet 1; after_scrape = quiet 8; closing = quiet 9 }

-- Alice cancels after the loop.
abbrev disturbed : Script
disturbed = record undisturbed { closing = cancelling 9 }

abbrev two_pages : Stream Content
two_pages = Stream.yields (quiet 2) page (Stream.yields (quiet 3) page Stream.finished)

run_crawl_job_ends_example :
    (after : CrawlJob) × Ended
      (base_of (quiet 1) queued_job world)
      after
      (run_crawl_job (engine two_pages) disturbed 7 world)
run_crawl_job_ends_example =
    run_crawl_job_ends (engine two_pages) disturbed 7 world queued_job refl refl

cancel_is_honoured_example :
    (after : CrawlJob) × (row 7 (
        run_crawl_job
          (engine (
            Stream.yields
              (quiet 2)
              page
              (Stream.yields (cancelling 3) page (Stream.yields (quiet 4) page Stream.finished))))
          undisturbed
          7
          world)
      ≡ some after)
    × (after.status ≡ CrawlStatus.cancelled)
    × (after.urls_discovered ≤ 1)
unfolding build_settings
cancel_is_honoured_example =
    cancel_is_honoured
      (engine (
        Stream.yields (quiet 2) page
          (Stream.yields (cancelling 3) page (Stream.yields (quiet 4) page Stream.finished))))
      undisturbed 7 world queued_job refl
      (settings_of (start (quiet 1) queued_job world).db settings 1) refl 1 3000 [] []
      (cancelling 3) ((quiet 2, page) ∷ []) page (Stream.yields (quiet 4) page Stream.finished) refl
      refl refl refl refl

late_cancel_is_lost_example :
    (after : CrawlJob) × (row 7 (run_crawl_job (engine two_pages) disturbed 7 world) ≡ some after)
    × (after.status ≡ CrawlStatus.completed)
unfolding build_settings run_mode start perform_all run_crawler each is_cancelled perform
    cancel_crawl
late_cancel_is_lost_example =
    late_cancel_is_lost (engine two_pages) disturbed 7 world queued_job refl
      (settings_of (start (quiet 1) queued_job world).db settings 1) refl refl refl (omega arith)
      (record {
        job =
            set_status CrawlStatus.cancelled 9000
              (mode_end (engine two_pages) disturbed 7 world queued_job refl
                (settings_of (start (quiet 1) queued_job world).db settings 1) refl).0.job;
        at = refl;
        status = refl;
      })

run_crawl_job_can_be_listed_example :
    let after = run_crawl_job (engine two_pages) disturbed 7 world in
    Returned (λ shown. is_some (log_list_out shown) ≡ true) (get_crawl_logs 1 7 50 0 after).0
    × Returned
        (λ shown. is_some (discovered_list_out shown) ≡ true)
        (list_discovered_urls 1 7 50 0 after).0
unfolding discovered_url_out
run_crawl_job_can_be_listed_example =
    run_crawl_job_can_be_listed (engine two_pages) disturbed 7 world 1 7 50 0
      (record { lines = tt; urls = (refl, (refl, tt)) })

abbrev early : Moment
early = cancelling 1

early_cancel_is_lost_example :
    IsCancelled 7 (perform_all early.meanwhile world)
    × (later : CrawlJob) × (row 7 (start early queued_job world).db ≡ some later)
    × (later.status ≡ CrawlStatus.running)
early_cancel_is_lost_example =
    early_cancel_is_lost early 1 1000 [] [] queued_job world
      (record { job = queued_job; owned = refl; at = refl; live = refl }) refl refl
