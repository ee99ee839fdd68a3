-- ===== src/Configuration/Dashboard.antt =====
-- `get_overview` of api/v1/dashboard/router.py.
use onecrawler_backend.Prelude.{
  ℕ, ◌+◌, String, Bool, true, false, ◌&&◌, List, [], ◌∷◌, map, take, ◌==◌,
}
use onecrawler_backend.Tables.{select, count}
use onecrawler_backend.Tables.Order.{order_by_desc}
use onecrawler_backend.Exec.{Exec, gets}
use onecrawler_backend.Models.{Uuid, CrawlJob, CrawlStatus, CrawlMode}
use onecrawler_backend.Backend.{Backend}

abbrev pub is_status : CrawlStatus → CrawlStatus → Bool
is_status CrawlStatus.queued CrawlStatus.queued = true
is_status CrawlStatus.running CrawlStatus.running = true
is_status CrawlStatus.completed CrawlStatus.completed = true
is_status CrawlStatus.failed CrawlStatus.failed = true
is_status CrawlStatus.cancelled CrawlStatus.cancelled = true
is_status _ _ = false

-- a row of the `GROUP BY`, 0 for a status without jobs
abbrev pub status_count : Uuid → CrawlStatus → List CrawlJob → ℕ
status_count user_id status jobs =
    count (λ (j : CrawlJob). j.user_id == user_id && is_status j.status status) jobs

-- `coalesce(sum(column), 0)`
abbrev pub sum_of : (CrawlJob → ℕ) → List CrawlJob → ℕ
sum_of column [] = 0
sum_of column (j ∷ jobs) = column j + sum_of column jobs

pub record JobCountsOut : Type 0 where
  pub queued : ℕ
  pub running : ℕ
  pub completed : ℕ
  pub failed : ℕ
  pub cancelled : ℕ

pub record RecentJobOut : Type 0 where
  pub id : Uuid
  pub target_url : String
  pub status : CrawlStatus
  pub mode : CrawlMode
  pub created_at : ℕ
  pub urls_discovered : ℕ
  pub urls_scraped : ℕ

abbrev pub recent_job : CrawlJob → RecentJobOut
recent_job j = record {
  id = j.id;
  target_url = j.target_url;
  status = j.status;
  mode = j.mode;
  created_at = j.created_at;
  urls_discovered = j.urls_discovered;
  urls_scraped = j.urls_scraped;
}

pub record DashboardOverviewOut : Type 0 where
  pub total_jobs : ℕ
  pub job_counts : JobCountsOut
  pub urls_discovered : ℕ
  pub urls_scraped : ℕ
  pub urls_failed : ℕ
  pub recent_jobs : List RecentJobOut

abbrev pub is_by : Uuid → CrawlJob → Bool
is_by user_id j = j.user_id == user_id

unfoldable pub overview : Uuid → List CrawlJob → DashboardOverviewOut
overview user_id jobs = record {
  total_jobs = count (is_by user_id) jobs;
  job_counts = record {
    queued = status_count user_id CrawlStatus.queued jobs;
    running = status_count user_id CrawlStatus.running jobs;
    completed = status_count user_id CrawlStatus.completed jobs;
    failed = status_count user_id CrawlStatus.failed jobs;
    cancelled = status_count user_id CrawlStatus.cancelled jobs;
  };
  urls_discovered = sum_of (λ j. j.urls_discovered) (select (is_by user_id) jobs);
  urls_scraped = sum_of (λ j. j.urls_scraped) (select (is_by user_id) jobs);
  urls_failed = sum_of (λ j. j.urls_failed) (select (is_by user_id) jobs);
  recent_jobs =
      map recent_job
        (take 10 (order_by_desc (λ (j : CrawlJob). j.created_at) (select (is_by user_id) jobs)));
}

unfoldable pub get_overview : Uuid → Exec Backend DashboardOverviewOut
unfolding overview
get_overview user_id = gets (λ s. overview user_id s.crawl_jobs)
