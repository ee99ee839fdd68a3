-- ===== src/Crawls/Lifecycle.antt =====
-- What the handlers of one job do one after another.
use mathlib.Core.Option
use onecrawler_backend.Prelude.{
  ℕ, ◌≡◌, ◌∙◌, refl, ap, inl, inr, true, none, some, [], ◌==◌, ==_refl, Bool-cases, Option-cases,
  if◌then◌else◌,
}
use onecrawler_backend.Tables.{find, select, update, insert}
use onecrawler_backend.Tables.Laws.{find-update_any, find-delete, select-delete}
use onecrawler_backend.Exec.{ok, err}
use onecrawler_backend.Models.{Uuid, CrawlJob, CrawlStatus, DiscoveredUrl, CrawlResultItem, LogLine}
use onecrawler_backend.Backend.{Backend}
use onecrawler_backend.Crawls.{
  has_id, is_owned, is_active, cancelled_at, cancel_crawl, retry_crawl, delete_crawl,
}
use onecrawler_backend.Crawls.Branches.{
  cancel_crawl-active, cancel_crawl-idle, cancel_crawl-missing,
}

module _ (user id : Uuid) (now : ℕ) (s : Backend) where
  -- The owner finds a job that was cancelled, as it is then.
  cancelled-found :
      (job : CrawlJob)
      → find (is_owned user id) s.crawl_jobs ≡ some job
      → find (is_owned user id) (update (has_id job.id) (cancelled_at now) s.crawl_jobs)
        ≡ some (cancelled_at now job)
  cancelled-found job e =
      find-update_any (is_owned user id) (has_id job.id) (cancelled_at now) s.crawl_jobs (λ j. refl)
      ∙ ap (Option.map (λ j. if has_id job.id j then cancelled_at now j else j)) e
      ∙ rw (==_refl job.id)

  -- A second cancellation, at whatever time, answers as the first did and writes nothing more.
  pub cancel_crawl-twice :
      (later : ℕ)
      → cancel_crawl user id later (cancel_crawl user id now s).1 ≡ cancel_crawl user id now s
  cancel_crawl-twice later = elim (Option-cases (find (is_owned user id) s.crawl_jobs)) [
    | inl n ↦ rw (cancel_crawl-missing user id now s n) (cancel_crawl-missing user id later s n)
    | inr (job, e) ↦ elim (Bool-cases (is_active job.status)) [
      | inr idle ↦
          rw (cancel_crawl-idle user id now s job e idle)
            (cancel_crawl-idle user id later s job e idle)
      | inl active ↦ rw (cancel_crawl-active user id now s job e active) (
          cancel_crawl-idle user id later
            (record s { crawl_jobs = update (has_id job.id) (cancelled_at now) s.crawl_jobs })
            (cancelled_at now job) (cancelled-found job e) refl)
    ]
  ]

  module _ (job : CrawlJob) (e : find (is_owned user id) s.crawl_jobs ≡ some job)
      (active : is_active job.status ≡ true) where
    -- A job that is active can be cancelled and then retried: the retry queues one new job with
    -- the target, the mode, the settings, the filters, the seeds and the limit of the old one,
    -- and with no progress, and leaves the cancelled one as it is.
    pub retry-cancel :
        (new_id : Uuid) (later : ℕ)
        → retry_crawl user id new_id later (cancel_crawl user id now s).1 ≡ (
            let fresh = record job {
              id = new_id;
              status = CrawlStatus.queued;
              error = none;
              created_at = later;
              started_at = none;
              finished_at = none;
              urls_discovered = 0;
              urls_scraped = 0;
              urls_failed = 0;
            } in
            (
              ok fresh,
              record s {
                crawl_jobs = insert fresh (update (has_id job.id) (cancelled_at now) s.crawl_jobs);
                queue = insert new_id s.queue;
              },
            ))
    unfolding retry_crawl
    retry-cancel new_id later =
        rw (cancel_crawl-active user id now s job e active) (rw (cancelled-found job e))

    -- An active job is not deleted; once cancelled it is, and no row of it is left.
    delete-cancel :
        let done = delete_crawl user id (cancel_crawl user id now s).1 in
        (delete_crawl user id s ≡ (err 409 "Cancel the crawl before deleting it", s))
        × (done.0 ≡ ok tt)
        × (find (has_id job.id) done.1.crawl_jobs ≡ none)
        × (select (λ (d : DiscoveredUrl). d.job_id == job.id) done.1.discovered_urls ≡ [])
        × (select (λ (r : CrawlResultItem). r.job_id == job.id) done.1.crawl_result_items ≡ [])
        × (select (λ (l : LogLine). l.job_id == job.id) done.1.log_lines ≡ [])
    unfolding delete_crawl
    delete-cancel = rw (cancel_crawl-active user id now s job e active) (
        rw (cancelled-found job e) (
          rw (e, active),
          refl,
          find-delete (has_id job.id) (update (has_id job.id) (cancelled_at now) s.crawl_jobs),
          select-delete (λ (d : DiscoveredUrl). d.job_id == job.id) s.discovered_urls,
          select-delete (λ (r : CrawlResultItem). r.job_id == job.id) s.crawl_result_items,
          select-delete (λ (l : LogLine). l.job_id == job.id) s.log_lines,
        ))
