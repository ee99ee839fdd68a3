-- ===== src/Users/Usage.antt =====
-- `get_usage` of api/users/account/router.py. `month_start` is the first instant of the month of a
-- time, in milliseconds, by the calendar of `datetime`.
pub mod Figures
use onecrawler_backend.Prelude.{ℕ, Bool, ◌&&◌, List, leb, ◌==◌}
use onecrawler_backend.Tables.{select, count}
use onecrawler_backend.Exec.{Exec, gets}
use onecrawler_backend.Models.{Uuid, CrawlJob, CrawlStatus}
use onecrawler_backend.Backend.{Backend}
use onecrawler_backend.Configuration.Dashboard.{JobCountsOut, status_count, sum_of, is_by}

pub record UsageOut : Type 0 where
  pub total_jobs : ℕ
  pub job_counts : JobCountsOut
  pub urls_discovered : ℕ
  pub urls_scraped : ℕ
  pub urls_failed : ℕ
  pub jobs_this_month : ℕ
  pub urls_scraped_this_month : ℕ

-- `CrawlJob.user_id == current_user.id, this_month`
abbrev pub is_this_month : Uuid → ℕ → CrawlJob → Bool
is_this_month user_id since j = j.user_id == user_id && leb since j.created_at

unfoldable pub usage : Uuid → ℕ → List CrawlJob → UsageOut
usage user_id since jobs = record {
  total_jobs = count (is_by user_id) jobs;
  job_counts = record {
    queued = status_count user_id CrawlStatus.queued jobs;
    running = status_count user_id CrawlStatus.running jobs;
    completed = status_count user_id CrawlStatus.completed jobs;
    failed = status_count user_id CrawlStatus.failed jobs;
    cancelled = status_count user_id CrawlStatus.cancelled jobs;
  };
  urls_discovered = sum_of (λ j. j.urls_discovered) (select (is_by user_id) jobs);
  urls_scraped = sum_of (λ j. j.urls_scraped) (select (is_by user_id) jobs);
  urls_failed = sum_of (λ j. j.urls_failed) (select (is_by user_id) jobs);
  jobs_this_month = count (is_this_month user_id since) jobs;
  urls_scraped_this_month =
      sum_of (λ j. j.urls_scraped) (select (is_this_month user_id since) jobs);
}

unfoldable pub get_usage : (ℕ → ℕ) → Uuid → ℕ → Exec Backend UsageOut
unfolding usage
get_usage month_start user_id now = gets (λ s. usage user_id (month_start now) s.crawl_jobs)
