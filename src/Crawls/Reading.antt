-- ===== src/Crawls/Reading.antt =====
-- The handlers of api/v1/crawler/router.py that list jobs and their rows.
use onecrawler_backend.Prelude.{
  ℕ, String, Bool, true, not, ◌&&◌, Option, none, some, List, map, leb, ◌==◌, if◌then◌else◌, str_eq,
  str_append, is_blank,
}
use onecrawler_backend.Tables.{select}
use onecrawler_backend.Tables.Order.{Page, paginate, order_by}
use onecrawler_backend.Exec.{Exec, gets, raise_if, ◌>>=◌, ◌>>◌}
use onecrawler_backend.Models.{
  Uuid, CrawlJob, DiscoveredUrl, CrawlResultItem, LogLine, ScrapingOutputFormat, Payload,
  status_text,
}
use onecrawler_backend.Backend.{Backend}
use onecrawler_backend.Crawls.{owned_job}

-- `if q:` on an optional string, and then the clause
abbrev pub given : Option String → (String → Bool) → Bool
given none clause = true
given (some q) clause = if is_blank q then true else clause q

-- `limit: int = Query(…, ge=1, le=…)`: FastAPI refuses the request before the handler runs, with
-- a body of its own.
unfoldable pub limit_between : ℕ → ℕ → ℕ → Exec Backend (Unit {0})
limit_between lo hi limit = raise_if (not (leb lo limit && leb limit hi)) 422 ""

-- `ilike` is the database's, given the text and the pattern.
unfoldable pub matches_list :
    (String → String → Bool) → Uuid → Option String → Option String → CrawlJob → Bool
matches_list ilike user_id status q job =
    job.user_id == user_id
    && given status (λ t. str_eq (status_text job.status) t)
    && given q (λ t. ilike job.target_url (str_append "%" (str_append t "%")))

unfoldable pub list_crawls :
    (String → String → Bool)
    → Uuid
    → Option String
    → Option String
    → ℕ
    → ℕ
    → Exec Backend (Page CrawlJob)
unfolding limit_between matches_list ◌>>=◌
list_crawls ilike user_id status q limit offset = do
  limit_between 1 100 limit
  gets (λ s.
      paginate (λ (j : CrawlJob). j.created_at) (matches_list ilike user_id status q) limit offset
        s.crawl_jobs)

-- One object of the file that `download_crawl_results` sends.
pub record DownloadItem : Type 0 where
  pub id : Uuid
  pub url : String
  pub title : String
  pub word_count : ℕ
  pub format : ScrapingOutputFormat
  pub extracted_at : ℕ
  pub content : Payload

abbrev pub download_item : CrawlResultItem → DownloadItem
download_item r = record {
  id = r.id;
  url = r.url;
  title = r.title;
  word_count = r.word_count;
  format = r.format;
  extracted_at = r.extracted_at;
  content = r.content;
}

unfoldable pub download_crawl_results : Uuid → Uuid → Exec Backend (List DownloadItem)
unfolding owned_job
download_crawl_results user_id job_id = do
  owned_job user_id job_id
  gets (λ s. map download_item (
      order_by (λ (r : CrawlResultItem). r.extracted_at)
        (select (λ (r : CrawlResultItem). r.job_id == job_id) s.crawl_result_items)))

unfoldable pub get_crawl_logs : Uuid → Uuid → ℕ → ℕ → Exec Backend (Page LogLine)
unfolding limit_between owned_job
get_crawl_logs user_id job_id limit offset = do
  limit_between 1 200 limit
  owned_job user_id job_id
  gets (λ s.
      paginate (λ (l : LogLine). l.timestamp) (λ l. l.job_id == job_id) limit offset s.log_lines)

unfoldable pub list_discovered_urls : Uuid → Uuid → ℕ → ℕ → Exec Backend (Page DiscoveredUrl)
unfolding limit_between owned_job
list_discovered_urls user_id job_id limit offset = do
  limit_between 1 200 limit
  owned_job user_id job_id
  gets (λ s.
      paginate (λ (d : DiscoveredUrl). d.discovered_at) (λ d. d.job_id == job_id) limit offset
        s.discovered_urls)
