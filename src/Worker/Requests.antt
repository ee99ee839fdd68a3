-- ===== src/Worker/Requests.antt =====
-- What the API may do to the database while the worker waits: the handlers of
-- api/v1/crawler/router.py that write, but for `delete_crawl`, which would take away the row that
-- the worker goes on to write.
pub mod Rule
pub mod Effect
use onecrawler_backend.Prelude.{ℕ, List, [], ◌∷◌}
use onecrawler_backend.Models.{Uuid, CrawlSettingsIn}
use onecrawler_backend.Backend.{Backend}
use onecrawler_backend.Crawls.{
  CreateCrawlRequest, create_crawl, delete_discovered_url, scrape_discovered_urls, cancel_crawl,
  retry_crawl,
}

-- each with the user who asks, and the id and time that the handler draws
pub data Request : Type 0 where
  create : Uuid → CreateCrawlRequest → Uuid → ℕ → Request
  delete_discovered : Uuid → Uuid → Uuid → Request
  scrape : Uuid → Uuid → CrawlSettingsIn → Uuid → ℕ → Request
  cancel : Uuid → Uuid → ℕ → Request
  retry : Uuid → Uuid → Uuid → ℕ → Request

unfoldable pub perform : Request → Backend → Backend
perform (create user payload new_id now) s = (create_crawl user payload new_id now s).1
perform (delete_discovered user job discovered) s = (delete_discovered_url user job discovered s).1
perform (scrape user job settings new_id now) s =
    (scrape_discovered_urls user job settings new_id now s).1
perform (cancel user job now) s = (cancel_crawl user job now s).1
perform (retry user job new_id now) s = (retry_crawl user job new_id now s).1

unfoldable pub perform_all : List Request → Backend → Backend
perform_all [] s = s
perform_all (r ∷ rs) s = perform_all rs (perform r s)
