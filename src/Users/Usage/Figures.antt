-- ===== src/Users/Usage/Figures.antt =====
-- The figures of `get_usage` of api/users/account/router.py beside each other and beside those of
-- `get_overview` of api/v1/dashboard/router.py.
use onecrawler_backend.Prelude.{ℕ, ◌+◌, ◌≤◌, ◌≡◌, refl, List, [], ◌∷◌, arith}
use onecrawler_backend.Tables.{select, count}
use onecrawler_backend.Exec.{ok, gets}
use onecrawler_backend.Models.{Uuid, CrawlJob}
use onecrawler_backend.Backend.{Backend}
use onecrawler_backend.Configuration.Dashboard.{
  DashboardOverviewOut, get_overview, overview, is_by, sum_of,
}
use onecrawler_backend.Configuration.Kept.{overview-total}
use onecrawler_backend.Users.Usage.{UsageOut, is_this_month, usage, get_usage}

month_count :
    (user : Uuid) (since : ℕ) (jobs : List CrawlJob)
    → count (is_this_month user since) jobs ≤ count (is_by user) jobs
month_count user since [] = omega arith
month_count user since (j ∷ jobs) = ground (arith, month_count user since jobs)

month_sum :
    (column : CrawlJob → ℕ) (user : Uuid) (since : ℕ) (jobs : List CrawlJob)
    → sum_of column (select (is_this_month user since) jobs)
      ≤ sum_of column (select (is_by user) jobs)
month_sum column user since [] = omega arith
month_sum column user since (j ∷ jobs) = ground (arith, month_sum column user since jobs)

-- The usage page answers without a write; it and the dashboard tell the same numbers of jobs, in
-- all and by status, and of URLs; the numbers by status add up to that of all jobs; and no figure of
-- the month is above that of all time.
pub get_usage-get_overview :
    (month_start : ℕ → ℕ) (user : Uuid) (now : ℕ) (s : Backend)
    → (u : UsageOut) × (o : DashboardOverviewOut) × (get_usage month_start user now s ≡ (ok u, s))
      × (get_overview user s ≡ (ok o, s))
      × (u.total_jobs ≡ o.total_jobs)
      × (u.job_counts ≡ o.job_counts)
      × (u.job_counts.queued + u.job_counts.running + u.job_counts.completed + u.job_counts.failed
            + u.job_counts.cancelled
          ≡ u.total_jobs)
      × (u.urls_discovered ≡ o.urls_discovered)
      × (u.urls_scraped ≡ o.urls_scraped)
      × (u.urls_failed ≡ o.urls_failed)
      × (u.jobs_this_month ≤ u.total_jobs)
      × (u.urls_scraped_this_month ≤ u.urls_scraped)
unfolding get_usage get_overview gets
get_usage-get_overview month_start user now s = (
  usage user (month_start now) s.crawl_jobs,
  overview user s.crawl_jobs,
  refl,
  refl,
  refl,
  refl,
  overview-total user s.crawl_jobs,
  refl,
  refl,
  refl,
  month_count user (month_start now) s.crawl_jobs,
  month_sum (λ j. j.urls_scraped) user (month_start now) s.crawl_jobs,
)
