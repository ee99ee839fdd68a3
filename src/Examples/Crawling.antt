-- ===== src/Examples/Crawling.antt =====
-- The theorems on the crawl, settings and dashboard handlers at one concrete world.
use onecrawler_backend.Prelude.{
  ◌==◌, ◌-◌, ◌≡◌, refl, Bool, true, none, some, String, List, [], ◌∷◌, pos, length, All,
}
use Prim.Native.Nat.{min}
use onecrawler_backend.Tables.{count, insert}
use onecrawler_backend.Tables.Order.{Page, order_by}
use onecrawler_backend.Tables.Order.Laws.{IsNewestFirst}
use onecrawler_backend.Exec.{ok}
use onecrawler_backend.Models.{CrawlJob, CrawlStatus, CrawlMode}
use onecrawler_backend.Crawls.{
  cancelled_at, cancel_crawl, retry_crawl, scrape_discovered_urls, urls_to_scrape,
}
use onecrawler_backend.Crawls.Reading.{list_crawls}
use onecrawler_backend.Crawls.Lifecycle.{retry-cancel}
use onecrawler_backend.Crawls.Seeds.{
  scrape_discovered_urls-seeds, IsDistinct, is_listed, discovered_texts,
}
use onecrawler_backend.Crawls.Serving.{
  CrawlRequest, serve_all, serve_all-RowsHaveJobs, RowsHaveJobs,
}
use onecrawler_backend.Crawls.Paging.{HasStatus, IsTotal, list_crawls-page}
use onecrawler_backend.Examples.{world, queued_job, done_job, settings}

retry-cancel_example : retry_crawl 1 7 9 600 (cancel_crawl 1 7 500 world).1 ≡ (
  ok (record queued_job { id = 9; created_at = 600 }),
  record world {
    crawl_jobs =
        cancelled_at 500 queued_job
        ∷ done_job
        ∷ record queued_job { id = 9; created_at = 600 }
        ∷ [];
    queue = 7 ∷ 9 ∷ [];
  },
)
retry-cancel_example = retry-cancel 1 7 500 world queued_job refl refl 9 600

scrape_discovered_urls-seeds_example :
    (job : CrawlJob) × (seeds : List String) × (scrape_discovered_urls 1 8 settings 9 500 world
      ≡ (ok job, record world { crawl_jobs = insert job world.crawl_jobs; queue = 7 ∷ 9 ∷ [] }))
    × (job.seed_urls ≡ some seeds)
    × IsDistinct seeds
    × ((u : String) → is_listed u seeds ≡ is_listed u (discovered_texts 8 world))
    × (job.url_limit ≡ pos (length seeds))
    × (job.status ≡ CrawlStatus.queued)
    × (job.mode ≡ CrawlMode.scraper)
unfolding urls_to_scrape order_by
scrape_discovered_urls-seeds_example =
    scrape_discovered_urls-seeds 1 8 9 settings 500 world done_job refl refl

-- a cancellation, a deletion and a retry by two users
abbrev requests : List CrawlRequest
requests =
    CrawlRequest.cancel 1 7 500
    ∷ CrawlRequest.remove 2 8
    ∷ CrawlRequest.retry 1 7 9 600
    ∷ CrawlRequest.remove 1 8
    ∷ []

serve_all-RowsHaveJobs_example : RowsHaveJobs (serve_all requests world)
serve_all-RowsHaveJobs_example = serve_all-RowsHaveJobs requests world ((refl, (refl, tt)), tt, tt)

-- the database's `ILIKE`, for a pattern that every text matches
abbrev any : String → String → Bool
any text pattern = true

list_crawls-page_example :
    (page : Page CrawlJob) × (list_crawls any 1 none none 1 1 world ≡ (ok page, world))
    × IsNewestFirst (λ j. j.created_at) page.items
    × All (λ j. (j.user_id ≡ 1) × HasStatus none j) page.items
    × IsTotal none none page.total (count (λ j. j.user_id == 1) world.crawl_jobs)
    × (length page.items ≡ min 1 (page.total - 1))
list_crawls-page_example = list_crawls-page any 1 none none 1 1 world refl
