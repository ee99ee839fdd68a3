-- ===== src/Worker/Job/Concluding.antt =====
-- The last commit of `run_crawl_job`, on each of its paths.
use mathlib.Core.Option
use mathlib.Core.Path.{subst}
use onecrawler_backend.Prelude.{
  ℕ, ◌+◌, ◌≤◌, ◌≡◌, ◌∙◌, refl, ap, inl, inr, Bool, true, false, String, Option, none, some, List,
  arith, ◌==◌, leb, Bool-cases, is_some, is_blank, str_append,
}
use onecrawler_backend.Tables.{find, update}
use onecrawler_backend.Tables.Laws.{find-update}
use onecrawler_backend.Models.{Uuid, CrawlJob, CrawlStatus}
use onecrawler_backend.Backend.{Backend}
use onecrawler_backend.Crawls.{has_id, is_active}
use onecrawler_backend.Worker.Requests.Effect.{row}
use onecrawler_backend.Worker.Engine.{Moment}
use onecrawler_backend.Worker.Modes.{Run, Outcome, returned, raised, log, assign}
use onecrawler_backend.Worker.Modes.Rows.{url_count, result_count}
use onecrawler_backend.Worker.Modes.Sound.{Base, Sound}
use onecrawler_backend.Worker.Modes.Loops.{if-run}
use onecrawler_backend.Worker.Job.{conclude, set_status, set_failed, log_end, no_pages}

-- a failed job has an error, and a completed one has pages
abbrev pub is_explained : CrawlStatus → Option String → ℕ → Bool
is_explained CrawlStatus.failed error pages = is_some error
is_explained CrawlStatus.completed error pages = leb 1 pages
is_explained _ error pages = true

-- What the job that was given has become: it is over, it says when it ended; a failed job has
-- an error, and a completed one has pages; what it was asked to do has not changed; its counts did not fall, a result was
-- counted for every row that was added, and no more urls are there than were counted.
pub record Ended (b : Base) (after : CrawlJob) (db : Backend) : Type 0 where
  pub in_db : row b.job.id db ≡ some after
  pub same : after ≡ record (b.job) {
    status = after.status;
    error = after.error;
    finished_at = after.finished_at;
    urls_discovered = after.urls_discovered;
    urls_scraped = after.urls_scraped;
  }
  pub is_over : is_active after.status ≡ false
  pub has_end : is_some after.finished_at ≡ true
  pub explained : is_explained after.status after.error after.urls_discovered ≡ true
  pub grows : b.job.urls_discovered ≤ after.urls_discovered
  pub urls : url_count b.job.id db + b.job.urls_discovered ≤ b.urls + after.urls_discovered
  pub results : result_count b.job.id db + b.job.urls_scraped ≡ b.results + after.urls_scraped

abbrev finish : CrawlStatus → Option String → ℕ → CrawlJob → CrawlJob
finish status error now job = record job { status = status; error = error; finished_at = some now }

-- A last commit that writes all that a cancellation could have written.
pub finish-Ended :
    {b : Base} (status : CrawlStatus) (error : Option String) (now : ℕ) (r : Run)
    (jobs : List CrawlJob)
    → find (has_id r.job.id) jobs ≡ some (finish status error now r.job)
    → is_active status ≡ false
    → is_explained status error r.job.urls_discovered ≡ true
    → Sound b r
    → Ended b (finish status error now r.job) (record (r.db) { crawl_jobs = jobs })
finish-Ended {b} status error now r jobs at over why h =
    let id_eq : r.job.id ≡ b.job.id = ap (λ (j : CrawlJob). j.id) h.same in
    record {
      in_db = subst (λ i. find (has_id i) jobs ≡ some (finish status error now r.job)) id_eq at;
      same = ap (finish status error now) h.same;
      is_over = over;
      has_end = refl;
      explained = why;
      grows = h.grows;
      urls =
          subst (λ i. url_count i r.db + b.job.urls_discovered ≤ b.urls + r.job.urls_discovered)
            id_eq h.urls;
      results =
          subst (λ i. result_count i r.db + b.job.urls_scraped ≡ b.results + r.job.urls_scraped)
            id_eq h.results;
    }

module _ {b : Base} (now : ℕ) (r : Run) (h : Sound b r) where
  set_status-Ended :
      (status : CrawlStatus)
      → is_active status ≡ false
      → is_explained status r.job.error r.job.urls_discovered ≡ true
      → Ended b (set_status status now r.job) (assign (set_status status now) r).db
  set_status-Ended status over why =
      let (st, t, e) = h.at in
      finish-Ended status r.job.error now r
        (update (has_id r.job.id) (set_status status now) r.db.crawl_jobs)
        (find-update (has_id r.job.id) (set_status status now) r.db.crawl_jobs (λ j k. k)
          ∙ ap (Option.map (set_status status now)) e)
        over why h

  pub set_failed-Ended :
      (message : String)
      → Ended b (set_failed message now r.job) (assign (set_failed message now) r).db
  set_failed-Ended message =
      let (st, t, e) = h.at in
      finish-Ended CrawlStatus.failed (some message) now r
        (update (has_id r.job.id) (set_failed message now) r.db.crawl_jobs)
        (find-update (has_id r.job.id) (set_failed message now) r.db.crawl_jobs (λ j k. k)
          ∙ ap (Option.map (set_failed message now)) e)
        refl refl h

abbrev pub RunEnded : Base → Run → Type 0
RunEnded b r = Ended b r.job r.db

-- A log line changes nothing of this.
pub log-Ended :
    {b : Base} (id : Uuid) (now : ℕ) (level message : String) (r : Run)
    → RunEnded b r
    → RunEnded b (log id now level message r)
log-Ended id now level message r h = record {
  in_db = h.in_db;
  same = h.same;
  is_over = h.is_over;
  has_end = h.has_end;
  explained = h.explained;
  grows = h.grows;
  urls = h.urls;
  results = h.results;
}

pub log_end-Ended :
    {b : Base} (m : Moment) (error : Option String) (status : CrawlStatus) (r : Run)
    → RunEnded b r
    → RunEnded b (log_end m error status r)
log_end-Ended m none status r h = log-Ended (m.id 0) (m.t 1) "info" _ r h
log_end-Ended {b} m (some message) status r h =
    if-run (RunEnded b) (is_blank message) (log-Ended (m.id 0) (m.t 1) "info" _ r h)
      (log-Ended (m.id 0) (m.t 1) "error" message r h)

pub conclude-Ended :
    {b : Base} (m : Moment) (r : Run) (o : Outcome) → Sound b r → RunEnded b (conclude m (r, o))
unfolding conclude
conclude-Ended m r (returned true) h =
    log_end-Ended m r.job.error CrawlStatus.cancelled
      (assign (set_status CrawlStatus.cancelled (m.t 0)) r)
      (set_status-Ended (m.t 0) r h CrawlStatus.cancelled refl refl)
conclude-Ended {b} m r (returned false) h = elim (Bool-cases (r.job.urls_discovered == 0)) [
  | inl none_found ↦ rw none_found (
      log_end-Ended m (some (no_pages r.job.target_url)) CrawlStatus.failed
        (assign (set_failed (no_pages r.job.target_url) (m.t 0)) r)
        (set_failed-Ended (m.t 0) r h (no_pages r.job.target_url)))
  | inr found ↦ rw found (
      log_end-Ended m r.job.error CrawlStatus.completed
        (assign (set_status CrawlStatus.completed (m.t 0)) r)
        (set_status-Ended (m.t 0) r h CrawlStatus.completed refl (ground arith)))
]
conclude-Ended m r (raised message) h =
    log-Ended (m.id 0) (m.t 1) "error" (str_append "Job failed: " message)
      (assign (set_failed message (m.t 0)) r) (set_failed-Ended (m.t 0) r h message)
