-- ===== src/Worker/Requests/Rule.antt =====
-- From the API's writes to any list of its requests, for an invariant.
use onecrawler_backend.Prelude.{ℕ, List, [], ◌∷◌}
use onecrawler_backend.Exec.Preserves.{Preserves}
use onecrawler_backend.Models.{CrawlJob, DiscoveredUrl}
use onecrawler_backend.Backend.{Backend}
use onecrawler_backend.Crawls.{submit, set_cancelled, remove_discovered}
use onecrawler_backend.Crawls.Writes.{
  create_crawl_keeps, scrape_keeps, retry_crawl_keeps, cancel_crawl_keeps,
  delete_discovered_url_keeps,
}
use onecrawler_backend.Worker.Requests.{Request, perform, perform_all}

module _ {P : Backend → Type 0} (on_submit : (job : CrawlJob) → Preserves P (submit job))
    (on_cancel : (now : ℕ) (job : CrawlJob) → Preserves P (set_cancelled now job))
    (on_remove : (row : DiscoveredUrl) → Preserves P (remove_discovered row)) where
  pub perform_keeps : (r : Request) (s : Backend) → P s → P (perform r s)
  unfolding perform
  perform_keeps (Request.create user payload new_id now) s =
      (create_crawl_keeps on_submit user payload new_id now).holds s
  perform_keeps (Request.delete_discovered user job_id d) s =
      (delete_discovered_url_keeps on_remove user job_id d).holds s
  perform_keeps (Request.scrape user job_id settings new_id now) s =
      (scrape_keeps on_submit user job_id settings new_id now).holds s
  perform_keeps (Request.cancel user job_id now) s =
      (cancel_crawl_keeps on_cancel user job_id now).holds s
  perform_keeps (Request.retry user job_id new_id now) s =
      (retry_crawl_keeps on_submit user job_id new_id now).holds s

  pub perform_all_keeps : (rs : List Request) (s : Backend) → P s → P (perform_all rs s)
  unfolding perform_all
  perform_all_keeps [] s h = h
  perform_all_keeps (r ∷ rs) s h = perform_all_keeps rs (perform r s) (perform_keeps r s h)
