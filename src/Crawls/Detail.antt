-- ===== src/Crawls/Detail.antt =====
-- `get_crawl` of api/v1/crawler/router.py: the two histories that it counts per second.
use onecrawler_backend.Tables.{select}
use onecrawler_backend.Exec.{Exec, gets, ◌>>=◌}
use onecrawler_backend.Models.{Uuid, CrawlJob, DiscoveredUrl, CrawlResultItem}
use onecrawler_backend.Backend.{Backend}
use onecrawler_backend.Crawls.{owned_job}
use onecrawler_backend.Prelude.{ℕ, ◌+◌, ◌*◌, ◌/◌, List, [], ◌∷◌, map, leb, ◌==◌, if◌then◌else◌}

-- a `dict[int, int]` in order of insertion
abbrev pub Buckets : Type 0
Buckets = List (ℕ × ℕ)

-- `buckets[second] = buckets.get(second, 0) + 1`
abbrev pub bump : ℕ → Buckets → Buckets
bump second [] = (second, 1) ∷ []
bump second ((k, n) ∷ b) = if k == second then (k, n + 1) ∷ b else (k, n) ∷ bump second b

-- the loop over the rows' times
unfoldable pub bucket_from : Buckets → List ℕ → Buckets
bucket_from b [] = b
bucket_from b (t ∷ ts) = bucket_from (bump (t / 1000) b) ts

-- `sorted(buckets.items())`: the keys are distinct, so the order is by key
abbrev pub insert_bucket : ℕ × ℕ → Buckets → Buckets
insert_bucket x [] = x ∷ []
insert_bucket x (y ∷ b) =
    let rest = y ∷ insert_bucket x b in if leb x.0 y.0 then x ∷ y ∷ b else rest

unfoldable pub sorted_buckets : Buckets → Buckets
sorted_buckets [] = []
sorted_buckets (x ∷ b) = insert_bucket x (sorted_buckets b)

pub record Point : Type 0 where
  pub t : ℕ
  pub count : ℕ

unfoldable pub throughput_history : List ℕ → List Point
unfolding bucket_from sorted_buckets
throughput_history times =
    map (λ (b : ℕ × ℕ). record { t = b.0 * 1000; count = b.1 })
      (sorted_buckets (bucket_from [] times))

unfoldable pub running_totals : ℕ → Buckets → List Point
running_totals cumulative [] = []
running_totals cumulative ((second, n) ∷ b) =
    record { t = second * 1000; count = cumulative + n } ∷ running_totals (cumulative + n) b

unfoldable pub discovery_history : List ℕ → List Point
unfolding running_totals bucket_from sorted_buckets
discovery_history times = running_totals 0 (sorted_buckets (bucket_from [] times))

pub record CrawlJobDetail : Type 0 where
  pub job : CrawlJob
  pub throughput : List Point
  pub discovery : List Point

unfoldable pub get_crawl : Uuid → Uuid → Exec Backend CrawlJobDetail
unfolding throughput_history discovery_history owned_job
get_crawl user_id job_id = do
  job ← owned_job user_id job_id
  gets (λ s. record {
    job = job;
    throughput = throughput_history (
        map (λ (r : CrawlResultItem). r.extracted_at)
          (select (λ (r : CrawlResultItem). r.job_id == job_id) s.crawl_result_items));
    discovery = discovery_history (
        map (λ (d : DiscoveredUrl). d.discovered_at)
          (select (λ (d : DiscoveredUrl). d.job_id == job_id) s.discovered_urls));
  })
