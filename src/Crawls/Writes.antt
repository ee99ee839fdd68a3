-- ===== src/Crawls/Writes.antt =====
-- From the writes of api/v1/crawler/router.py to its handlers, for an invariant.
use onecrawler_backend.Prelude.{ℕ}
use onecrawler_backend.Exec.Preserves.{Preserves, preserves_rules}
use onecrawler_backend.Models.{Uuid, CrawlJob, CrawlSettingsIn, DiscoveredUrl}
use onecrawler_backend.Backend.{Backend}
use onecrawler_backend.Crawls.{
  CreateCrawlRequest, owned_job, submit, set_cancelled, remove_discovered, remove_job, create_crawl,
  delete_discovered_url, scrape_discovered_urls, cancel_crawl, retry_crawl, delete_crawl,
}

pub owned_job_keeps :
    (P : Backend → Type 0) (user job_id : Uuid) → Preserves P (owned_job user job_id)
unfolding owned_job
owned_job_keeps P user job_id = search preserves_rules

module _ {P : Backend → Type 0} (on_submit : (job : CrawlJob) → Preserves P (submit job)) where
  pub create_crawl_keeps :
      (user : Uuid) (payload : CreateCrawlRequest) (new_id : Uuid) (now : ℕ)
      → Preserves P (create_crawl user payload new_id now)
  unfolding create_crawl
  create_crawl_keeps user payload new_id now = on_submit _

  pub scrape_keeps :
      (user job_id : Uuid) (settings : CrawlSettingsIn) (new_id : Uuid) (now : ℕ)
      → Preserves P (scrape_discovered_urls user job_id settings new_id now)
  unfolding scrape_discovered_urls
  scrape_keeps user job_id settings new_id now =
      search (preserves_rules, owned_job_keeps P, on_submit)

  pub retry_crawl_keeps :
      (user job_id new_id : Uuid) (now : ℕ) → Preserves P (retry_crawl user job_id new_id now)
  unfolding retry_crawl
  retry_crawl_keeps user job_id new_id now = search (preserves_rules, owned_job_keeps P, on_submit)

module _ {P : Backend → Type 0}
    (on_cancel : (now : ℕ) (job : CrawlJob) → Preserves P (set_cancelled now job)) where
  pub cancel_crawl_keeps :
      (user job_id : Uuid) (now : ℕ) → Preserves P (cancel_crawl user job_id now)
  unfolding cancel_crawl
  cancel_crawl_keeps user job_id now = search (preserves_rules, owned_job_keeps P, on_cancel)

module _ {P : Backend → Type 0}
    (on_remove : (row : DiscoveredUrl) → Preserves P (remove_discovered row)) where
  pub delete_discovered_url_keeps :
      (user job_id discovered_id : Uuid)
      → Preserves P (delete_discovered_url user job_id discovered_id)
  unfolding delete_discovered_url
  delete_discovered_url_keeps user job_id discovered_id =
      search (preserves_rules, owned_job_keeps P, on_remove)

module _ {P : Backend → Type 0} (on_remove : (job : CrawlJob) → Preserves P (remove_job job)) where
  pub delete_crawl_keeps : (user job_id : Uuid) → Preserves P (delete_crawl user job_id)
  unfolding delete_crawl
  delete_crawl_keeps user job_id = search (preserves_rules, owned_job_keeps P, on_remove)
