-- ===== src/Worker/Modes/Sound.antt =====
-- What holds of a run at the head of every loop of worker/tasks.py.
use mathlib.Core.Option
use onecrawler_backend.Prelude.{
  ℕ, ◌+◌, ◌≤◌, ◌≡◌, ◌∙◌, refl, ap, inl, inr, String, Option, some, List, [], ◌∷◌, arith, length,
  All,
}
use onecrawler_backend.Tables.{find, update}
use onecrawler_backend.Tables.Laws.{find-update, count-append}
use onecrawler_backend.Models.{Uuid, CrawlJob, CrawlStatus, DiscoveredUrl}
use onecrawler_backend.Backend.{Backend}
use onecrawler_backend.Crawls.{has_id}
use onecrawler_backend.Worker.Requests.{Request, perform_all}
use onecrawler_backend.Worker.Requests.Effect.{row, MayCancel, perform_all-HasRow}
use onecrawler_backend.Worker.Engine.{Moment}
use onecrawler_backend.Worker.Summary.{Summary}
use onecrawler_backend.Models.{ScrapingOutputFormat}
use onecrawler_backend.Worker.Modes.{
  Run, log, flush, set_discovered, set_counts, save_url, save_page, discovered, result_item,
}
use onecrawler_backend.Worker.Modes.Rows.{
  result_of, url_count, result_count, perform_all-HasRows, url_count-append,
}

-- A row that has the columns of `job`, but for those that a cancellation writes.
abbrev pub Agrees : CrawlJob → Option CrawlJob → Type 0
Agrees job after =
    (status : CrawlStatus) × (finished_at : Option ℕ) × (after
      ≡ some (record job { status = status; finished_at = finished_at }))

-- The job as the run found it, and the rows that it had.
pub record Base : Type 0 where
  pub job : CrawlJob
  pub urls : ℕ
  pub results : ℕ

-- The session's job differs from the one that it began with in the counts, the database agrees
-- with the session but for a cancellation, and the counts follow the rows.
pub record Sound (b : Base) (r : Run) : Type 0 where
  pub same : r.job ≡ set_counts r.job.urls_discovered r.job.urls_scraped b.job
  pub at : Agrees r.job (row r.job.id r.db)
  pub urls : url_count r.job.id r.db + b.job.urls_discovered ≤ b.urls + r.job.urls_discovered
  pub results : result_count r.job.id r.db + b.job.urls_scraped ≡ b.results + r.job.urls_scraped
  pub grows : b.job.urls_discovered ≤ r.job.urls_discovered

-- An assignment to columns of the session's job goes to the row too.
pub assign-Agrees :
    (f : CrawlJob → CrawlJob) (id : Uuid) (job : CrawlJob) (jobs : List CrawlJob)
    → ((j : CrawlJob) → (f j).id ≡ j.id)
    → ((status : CrawlStatus) (t : Option ℕ)
        → f (record job { status = status; finished_at = t })
          ≡ record (f job) { status = status; finished_at = t })
    → Agrees job (find (has_id id) jobs)
    → Agrees (f job) (find (has_id id) (update (has_id id) f jobs))
assign-Agrees f id job jobs same apart (status, t, e) = (
  status,
  t,
  find-update (has_id id) f jobs (λ j h. rw (same j) h)
      ∙ ap (Option.map f) e
      ∙ ap some (apart status t),
)

pub Agrees-MayCancel :
    (job : CrawlJob) (status : CrawlStatus) (t : Option ℕ) (after : Option CrawlJob)
    → MayCancel (record job { status = status; finished_at = t }) after
    → Agrees job after
Agrees-MayCancel job status t after (inl e) = (status, t, e)
Agrees-MayCancel job status t after (inr (now, e)) = (CrawlStatus.cancelled, some now, e)

pub perform_all-Agrees :
    (rs : List Request) (job : CrawlJob) (id : Uuid) (s : Backend)
    → Agrees job (row id s)
    → Agrees job (row id (perform_all rs s))
perform_all-Agrees rs job id s (status, t, e) =
    Agrees-MayCancel job status t (row id (perform_all rs s))
      (perform_all-HasRow id (record job { status = status; finished_at = t }) rs s
        (record { at = inl e })).at

module _ {b : Base} where
  pub catch_up-Sound :
      (rs : List Request) (r : Run) → Sound b r → Sound b (record r { db = perform_all rs r.db })
  catch_up-Sound rs r h =
      let kept = perform_all-Agrees rs r.job r.job.id r.db h.at in
      let rows =
        perform_all-HasRows r.job.id (url_count r.job.id r.db) (result_count r.job.id r.db) rs r.db
          (record { urls_le = omega arith; results_eq = refl }) in
      record {
        same = h.same;
        at = kept;
        urls = omega (arith, rows.urls_le, h.urls);
        results = omega (arith, rows.results_eq, h.results);
        grows = h.grows;
      }

  pub log-Sound :
      (id : Uuid) (now : ℕ) (level message : String) (r : Run)
      → Sound b r
      → Sound b (log id now level message r)
  log-Sound id now level message r h = record {
    same = h.same;
    at = h.at;
    urls = h.urls;
    results = h.results;
    grows = h.grows;
  }

  pub flush-Sound :
      (pending : List DiscoveredUrl) (r : Run)
      → All (λ d. d.job_id ≡ r.job.id) pending
      → Sound b r
      → Sound b (flush pending r)
  flush-Sound pending r mine h = record {
    same = ap (set_discovered (r.job.urls_discovered + length pending)) h.same;
    at =
        assign-Agrees (set_discovered (r.job.urls_discovered + length pending)) r.job.id r.job
          r.db.crawl_jobs (λ j. refl) (λ status t. refl) h.at;
    urls = omega (arith, url_count-append r.job.id r.db.discovered_urls pending mine, h.urls);
    results = h.results;
    grows = omega (arith, h.grows);
  }

  pub save_url-Sound :
      (m : Moment) (url : String) (r : Run) → Sound b r → Sound b (save_url m url r)
  save_url-Sound m url r h = flush-Sound (discovered r.job.id m url ∷ []) r (refl, tt) h

  pub save_page-Sound :
      (format : ScrapingOutputFormat) (m : Moment) (s : Summary) (r : Run)
      → Sound b r
      → Sound b (save_page format m s r)
  save_page-Sound format m s r h = record {
    same = ap (set_counts (r.job.urls_discovered + 1) (r.job.urls_scraped + 1)) h.same;
    at =
        assign-Agrees (set_counts (r.job.urls_discovered + 1) (r.job.urls_scraped + 1)) r.job.id
          r.job r.db.crawl_jobs (λ j. refl) (λ status t. refl) h.at;
    urls = omega (
      arith,
      url_count-append r.job.id r.db.discovered_urls (discovered r.job.id m s.url ∷ []) (refl, tt),
      h.urls,
    );
    results = ground (
      arith,
      count-append (result_of r.job.id) r.db.crawl_result_items
          (result_item r.job.id m format s ∷ []),
      h.results,
    );
    grows = omega (arith, h.grows);
  }
