-- ===== src/Crawls/Serving.antt =====
-- The requests of api/v1/crawler/router.py that write, served one after another.
use onecrawler_backend.Prelude.{
  ℕ, ◌≡◌, ◌∙◌, refl, ap, inl, inr, Bool, true, false, List, [], ◌∷◌, ◌==◌, is_some, All, Bool-cases,
  arith,
}
use onecrawler_backend.Tables.{find, update, delete, insert}
use onecrawler_backend.Tables.Laws.{find-update-is_some, find-append-is_some, find-delete_other}
use onecrawler_backend.Exec.Preserves.{Preserves}
use onecrawler_backend.Models.{
  Uuid, CrawlJob, CrawlSettingsIn, DiscoveredUrl, CrawlResultItem, LogLine,
}
use onecrawler_backend.Backend.{Backend}
use onecrawler_backend.Crawls.{
  CreateCrawlRequest, has_id, cancelled_at, submit, set_cancelled, remove_discovered, remove_job,
  create_crawl, delete_discovered_url, scrape_discovered_urls, cancel_crawl, retry_crawl,
  delete_crawl,
}
use onecrawler_backend.Crawls.Writes.{
  create_crawl_keeps, scrape_keeps, retry_crawl_keeps, cancel_crawl_keeps,
  delete_discovered_url_keeps, delete_crawl_keeps,
}

-- a request with the user it comes from, the id and the time that the handler draws
pub data CrawlRequest : Type 0 where
  create : Uuid → CreateCrawlRequest → Uuid → ℕ → CrawlRequest
  delete_discovered : Uuid → Uuid → Uuid → CrawlRequest
  scrape_discovered : Uuid → Uuid → CrawlSettingsIn → Uuid → ℕ → CrawlRequest
  cancel : Uuid → Uuid → ℕ → CrawlRequest
  retry : Uuid → Uuid → Uuid → ℕ → CrawlRequest
  remove : Uuid → Uuid → CrawlRequest

unfoldable pub serve : CrawlRequest → Backend → Backend
serve (create user payload new_id now) s = (create_crawl user payload new_id now s).1
serve (delete_discovered user id discovered) s = (delete_discovered_url user id discovered s).1
serve (scrape_discovered user id settings new_id now) s =
    (scrape_discovered_urls user id settings new_id now s).1
serve (cancel user id now) s = (cancel_crawl user id now s).1
serve (retry user id new_id now) s = (retry_crawl user id new_id now s).1
serve (remove user id) s = (delete_crawl user id s).1

abbrev pub serve_all : List CrawlRequest → Backend → Backend
serve_all [] s = s
serve_all (r ∷ rs) s = serve_all rs (serve r s)

-- some job has the id
abbrev pub HasJob : List CrawlJob → Uuid → Type 0
HasJob jobs id = is_some (find (has_id id) jobs) ≡ true

-- The foreign keys hold: each row of a job is a row of a job that exists.
abbrev pub RowsHaveJobs : Backend → Type 0
RowsHaveJobs s =
    All (λ (d : DiscoveredUrl). HasJob s.crawl_jobs d.job_id) s.discovered_urls
    × All (λ (r : CrawlResultItem). HasJob s.crawl_jobs r.job_id) s.crawl_result_items
    × All (λ (l : LogLine). HasJob s.crawl_jobs l.job_id) s.log_lines

module _ {A : Type 0} where
  All-mono : (P Q : A → Type 0) (xs : List A) → ((x : A) → P x → Q x) → All P xs → All Q xs
  All-mono P Q [] f h = tt
  All-mono P Q (x ∷ xs) f h = (f x h.0, All-mono P Q xs f h.1)

  -- What is left by a deletion does not match it.
  pub All-delete :
      (P Q : A → Type 0) (p : A → Bool) (xs : List A)
      → ((x : A) → p x ≡ false → P x → Q x)
      → All P xs
      → All Q (delete p xs)
  All-delete P Q p [] f h = tt
  All-delete P Q p (x ∷ xs) f h = elim (Bool-cases (p x)) [
    | inl e ↦ rw e (All-delete P Q p xs f h.1)
    | inr e ↦ rw e (f x e h.0, All-delete P Q p xs f h.1)
  ]

HasJob-insert :
    (jobs : List CrawlJob) (job : CrawlJob) (id : Uuid)
    → HasJob jobs id
    → HasJob (insert job jobs) id
HasJob-insert jobs job id h = find-append-is_some (has_id id) jobs (job ∷ []) h

HasJob-cancel :
    (jobs : List CrawlJob) (target : Uuid) (now : ℕ) (id : Uuid)
    → HasJob jobs id
    → HasJob (update (has_id target) (cancelled_at now) jobs) id
HasJob-cancel jobs target now id h =
    find-update-is_some (has_id id) (has_id target) (cancelled_at now) jobs (λ j. refl) h

-- A row of another job keeps its job.
HasJob-delete :
    (jobs : List CrawlJob) (target id : Uuid)
    → (id == target) ≡ false
    → HasJob jobs id
    → HasJob (delete (has_id target) jobs) id
HasJob-delete jobs target id other h =
    ap is_some
      (find-delete_other (has_id id) (has_id target) jobs (λ j e. ground (arith, other, e)))
    ∙ h

pub submit_keeps : (job : CrawlJob) → Preserves RowsHaveJobs (submit job)
unfolding submit
submit_keeps job = record {
  holds = λ s h. (
    All-mono _ _ s.discovered_urls (λ d. HasJob-insert s.crawl_jobs job d.job_id) h.0,
    All-mono _ _ s.crawl_result_items (λ r. HasJob-insert s.crawl_jobs job r.job_id) h.1,
    All-mono _ _ s.log_lines (λ l. HasJob-insert s.crawl_jobs job l.job_id) h.2,
  );
}

pub set_cancelled_keeps :
    (now : ℕ) (job : CrawlJob) → Preserves RowsHaveJobs (set_cancelled now job)
unfolding set_cancelled
set_cancelled_keeps now job = record {
  holds = λ s h. (
    All-mono _ _ s.discovered_urls (λ d. HasJob-cancel s.crawl_jobs job.id now d.job_id) h.0,
    All-mono _ _ s.crawl_result_items (λ r. HasJob-cancel s.crawl_jobs job.id now r.job_id) h.1,
    All-mono _ _ s.log_lines (λ l. HasJob-cancel s.crawl_jobs job.id now l.job_id) h.2,
  );
}

remove_discovered_keeps : (row : DiscoveredUrl) → Preserves RowsHaveJobs (remove_discovered row)
unfolding remove_discovered
remove_discovered_keeps row = record {
  holds = λ s h. (
    All-delete _ _ (λ (d : DiscoveredUrl). d.id == row.id) s.discovered_urls (λ d e k. k) h.0,
    h.1,
    h.2,
  );
}

pub remove_job_keeps : (job : CrawlJob) → Preserves RowsHaveJobs (remove_job job)
unfolding remove_job
remove_job_keeps job = record {
  holds = λ s h. (
    All-delete _ _ (λ (d : DiscoveredUrl). d.job_id == job.id) s.discovered_urls
        (λ d. HasJob-delete s.crawl_jobs job.id d.job_id) h.0,
    All-delete _ _ (λ (r : CrawlResultItem). r.job_id == job.id) s.crawl_result_items
        (λ r. HasJob-delete s.crawl_jobs job.id r.job_id) h.1,
    All-delete _ _ (λ (l : LogLine). l.job_id == job.id) s.log_lines
        (λ l. HasJob-delete s.crawl_jobs job.id l.job_id) h.2,
  );
}

serve-RowsHaveJobs : (r : CrawlRequest) (s : Backend) → RowsHaveJobs s → RowsHaveJobs (serve r s)
unfolding serve
serve-RowsHaveJobs (create user payload new_id now) s h =
    (create_crawl_keeps submit_keeps user payload new_id now).holds s h
serve-RowsHaveJobs (delete_discovered user id discovered) s h =
    (delete_discovered_url_keeps remove_discovered_keeps user id discovered).holds s h
serve-RowsHaveJobs (scrape_discovered user id settings new_id now) s h =
    (scrape_keeps submit_keeps user id settings new_id now).holds s h
serve-RowsHaveJobs (cancel user id now) s h =
    (cancel_crawl_keeps set_cancelled_keeps user id now).holds s h
serve-RowsHaveJobs (retry user id new_id now) s h =
    (retry_crawl_keeps submit_keeps user id new_id now).holds s h
serve-RowsHaveJobs (remove user id) s h = (delete_crawl_keeps remove_job_keeps user id).holds s h

-- Whatever requests are served, in whatever order and from whichever users, every discovered URL,
-- result and log line stays a row of a job that exists.
pub serve_all-RowsHaveJobs :
    (requests : List CrawlRequest) (s : Backend)
    → RowsHaveJobs s
    → RowsHaveJobs (serve_all requests s)
serve_all-RowsHaveJobs [] s h = h
serve_all-RowsHaveJobs (r ∷ rs) s h =
    serve_all-RowsHaveJobs rs (serve r s) (serve-RowsHaveJobs r s h)
