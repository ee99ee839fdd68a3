-- ===== src/Worker/Modes/Rows.antt =====
-- How many rows a job has, and what the API's writes do to that.
use onecrawler_backend.Prelude.{
  ℕ, ◌+◌, ◌≤◌, ◌≡◌, Bool, List, [], ◌∷◌, ◌++◌, arith, ◌==◌, length, All,
}
use onecrawler_backend.Tables.{count, delete}
use onecrawler_backend.Exec.Preserves.{Preserves}
use onecrawler_backend.Models.{Uuid, CrawlJob, DiscoveredUrl, CrawlResultItem}
use onecrawler_backend.Backend.{Backend}
use onecrawler_backend.Crawls.{submit, set_cancelled, remove_discovered}
use onecrawler_backend.Worker.Requests.{Request, perform_all}
use onecrawler_backend.Worker.Requests.Rule.{perform_all_keeps}

abbrev pub url_of : Uuid → DiscoveredUrl → Bool
url_of id d = d.job_id == id

abbrev pub result_of : Uuid → CrawlResultItem → Bool
result_of id r = r.job_id == id

-- the number of a job's discovered urls, and of its results
abbrev pub url_count : Uuid → Backend → ℕ
url_count id s = count (url_of id) s.discovered_urls

abbrev pub result_count : Uuid → Backend → ℕ
result_count id s = count (result_of id) s.crawl_result_items

count-delete-le : {A : Type 0} (p q : A → Bool) (xs : List A) → count p (delete q xs) ≤ count p xs
count-delete-le p q [] = omega arith
count-delete-le p q (x ∷ xs) = ground (arith, count-delete-le p q xs)

-- The API takes urls away at most, and leaves the results alone.
pub record HasRows (id : Uuid) (urls results : ℕ) (s : Backend) : Type 0 where
  pub urls_le : url_count id s ≤ urls
  pub results_eq : result_count id s ≡ results

module _ (id : Uuid) (urls results : ℕ) where
  submit-HasRows : (job : CrawlJob) → Preserves (HasRows id urls results) (submit job)
  unfolding submit
  submit-HasRows job = record {
    holds = λ s h. record { urls_le = h.urls_le; results_eq = h.results_eq };
  }

  set_cancelled-HasRows :
      (now : ℕ) (job : CrawlJob) → Preserves (HasRows id urls results) (set_cancelled now job)
  unfolding set_cancelled
  set_cancelled-HasRows now job = record {
    holds = λ s h. record { urls_le = h.urls_le; results_eq = h.results_eq };
  }

  remove_discovered-HasRows :
      (row : DiscoveredUrl) → Preserves (HasRows id urls results) (remove_discovered row)
  unfolding remove_discovered
  remove_discovered-HasRows row = record {
    holds = λ s h. record {
      urls_le =
          omega
            (arith, count-delete-le (url_of id) (λ d. d.id == row.id) s.discovered_urls, h.urls_le);
      results_eq = h.results_eq;
    };
  }

  pub perform_all-HasRows :
      (rs : List Request) (s : Backend)
      → HasRows id urls results s
      → HasRows id urls results (perform_all rs s)
  perform_all-HasRows =
      perform_all_keeps submit-HasRows set_cancelled-HasRows remove_discovered-HasRows

-- Rows of the job are counted as they are added.
pub url_count-append :
    (id : Uuid) (rows new : List DiscoveredUrl)
    → All (λ d. d.job_id ≡ id) new
    → count (url_of id) (rows ++ new) ≡ count (url_of id) rows + length new
url_count-append id [] [] h = omega arith
url_count-append id [] (d ∷ new) h = ground (arith, url_count-append id [] new)
url_count-append id (d ∷ rows) new h = ground (arith, url_count-append id rows new h)
