-- ===== src/Crawls/Branches.antt =====
-- The handlers of one job of api/v1/crawler/router.py, branch by branch.
use onecrawler_backend.Prelude.{ℕ, ◌≡◌, true, false, none, some}
use onecrawler_backend.Tables.{find, update}
use onecrawler_backend.Exec.{ok, err}
use onecrawler_backend.Models.{Uuid, CrawlJob}
use onecrawler_backend.Backend.{Backend}
use onecrawler_backend.Crawls.{has_id, is_owned, is_active, cancelled_at, owned_job, cancel_crawl}

module _ (user id : Uuid) (s : Backend) where
  pub owned_job-found :
      (job : CrawlJob)
      → find (is_owned user id) s.crawl_jobs ≡ some job
      → owned_job user id s ≡ (ok job, s)
  unfolding owned_job
  owned_job-found job e = rw e

  pub owned_job-missing :
      find (is_owned user id) s.crawl_jobs ≡ none
      → owned_job user id s ≡ (err 404 "Crawl job not found", s)
  unfolding owned_job
  owned_job-missing e = rw e

module _ (user id : Uuid) (now : ℕ) (s : Backend) where
  pub cancel_crawl-missing :
      find (is_owned user id) s.crawl_jobs ≡ none
      → cancel_crawl user id now s ≡ (err 404 "Crawl job not found", s)
  unfolding cancel_crawl
  cancel_crawl-missing e = rw e

  module _ (job : CrawlJob) (e : find (is_owned user id) s.crawl_jobs ≡ some job) where
    pub cancel_crawl-active :
        is_active job.status ≡ true
        → cancel_crawl user id now s ≡ (
          ok (cancelled_at now job),
          record s { crawl_jobs = update (has_id job.id) (cancelled_at now) s.crawl_jobs },
        )
    unfolding cancel_crawl
    cancel_crawl-active active = rw (e, active)

    pub cancel_crawl-idle : is_active job.status ≡ false → cancel_crawl user id now s ≡ (ok job, s)
    unfolding cancel_crawl
    cancel_crawl-idle idle = rw (e, idle)
