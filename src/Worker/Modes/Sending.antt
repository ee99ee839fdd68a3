-- ===== src/Worker/Modes/Sending.antt =====
-- That what the loops of worker/tasks.py write fits the responses of api/v1/crawler/schema.py.
use onecrawler_backend.Prelude.{
  ℕ, ◌≡◌, refl, true, false, String, List, [], ◌∷◌, ◌++◌, All, All-append, is_some, ◌==◌, get_or,
  length,
}
use onecrawler_backend.Exec.Preserves.{Preserves}
use onecrawler_backend.Models.{
  Uuid, CrawlJob, DiscoveredUrl, ScrapingOutputFormat, LinkExtractionStrategy, Content,
}
use onecrawler_backend.Backend.{Backend}
use onecrawler_backend.Crawls.{submit, set_cancelled, remove_discovered}
use onecrawler_backend.Crawls.Serving.{All-delete}
use onecrawler_backend.Crawls.Responses.{log_line_out, discovered_url_out}
use onecrawler_backend.Crawls.Responses.Lists.{CanSend}
use onecrawler_backend.Worker.Requests.{Request, perform_all}
use onecrawler_backend.Worker.Requests.Rule.{perform_all_keeps}
use onecrawler_backend.Worker.Engine.{Moment, Fetch, Stream, ScrapedItem}
use onecrawler_backend.Worker.Summary.{Summary, summarize_content}
use onecrawler_backend.Worker.Modes.{
  Run, Outcome, returned, raised, assign, log, catch_up, note_cancelled, discovered, add_urls,
  save_url, each, stream_of, flush, save_page, save_link, save_content, save_item, warn_if_nothing,
  shallow_loop, run_sitemap, run_link_extraction, run_crawler, run_scraper, seeds_or, is_cancelled,
}
use onecrawler_backend.Worker.Modes.Loops.{if-run, if-first}

pub submit-CanSend : (job : CrawlJob) → Preserves CanSend (submit job)
unfolding submit
submit-CanSend job = record { holds = λ s h. record { lines = h.lines; urls = h.urls } }

pub set_cancelled-CanSend : (now : ℕ) (job : CrawlJob) → Preserves CanSend (set_cancelled now job)
unfolding set_cancelled
set_cancelled-CanSend now job = record { holds = λ s h. record { lines = h.lines; urls = h.urls } }

pub remove_discovered-CanSend : (row : DiscoveredUrl) → Preserves CanSend (remove_discovered row)
unfolding remove_discovered
remove_discovered-CanSend row = record {
  holds = λ s h. record {
    lines = h.lines;
    urls =
        All-delete _ _ (λ (d : DiscoveredUrl). d.id == row.id) s.discovered_urls (λ d e k. k)
          h.urls;
  };
}

pub perform_all-CanSend : (rs : List Request) (s : Backend) → CanSend s → CanSend (perform_all rs s)
perform_all-CanSend =
    perform_all_keeps submit-CanSend set_cancelled-CanSend remove_discovered-CanSend

-- of a run: its database
abbrev pub RunSends : Run → Type 0
RunSends r = CanSend r.db

-- The level of a line is one that can be sent.
pub log-CanSend :
    (id : Uuid) (now : ℕ) (level message : String) (r : Run)
    → is_some (
        log_line_out (record {
          id = id;
          job_id = r.job.id;
          timestamp = now;
          level = level;
          message = message;
        }))
      ≡ true
    → RunSends r
    → RunSends (log id now level message r)
log-CanSend id now level message r e h = record {
  lines = All-append _ r.db.log_lines _ h.lines (e, tt);
  urls = h.urls;
}

pub assign-CanSend : (f : CrawlJob → CrawlJob) (r : Run) → RunSends r → RunSends (assign f r)
assign-CanSend f r h = record { lines = h.lines; urls = h.urls }

abbrev pub UrlsSend : List DiscoveredUrl → Type 0
UrlsSend = All (λ (d : DiscoveredUrl). is_some (discovered_url_out d) ≡ true)

pub add_urls-CanSend :
    (rows : List DiscoveredUrl) (r : Run) → UrlsSend rows → RunSends r → RunSends (add_urls rows r)
add_urls-CanSend rows r k h = record {
  lines = h.lines;
  urls = All-append _ r.db.discovered_urls rows h.urls k;
}

catch_up-CanSend : (m : Moment) (r : Run) → RunSends r → RunSends (catch_up m r)
catch_up-CanSend m r h = perform_all-CanSend m.meanwhile r.db h

note_cancelled-CanSend : (m : Moment) (r : Run) → RunSends r → RunSends (note_cancelled m r)
unfolding log_line_out
note_cancelled-CanSend m r h =
    log-CanSend (m.id 0) (m.t 0) "warn" "Cancelled before completion" r refl h

discovered_one : (id : Uuid) (m : Moment) (url : String) → UrlsSend (discovered id m url ∷ [])
unfolding discovered_url_out
discovered_one id m url = (refl, tt)

save_url-CanSend : (m : Moment) (url : String) (r : Run) → RunSends r → RunSends (save_url m url r)
save_url-CanSend m url r h =
    let added =
      add_urls-CanSend (discovered r.job.id m url ∷ []) r (discovered_one r.job.id m url) h in
    record { lines = added.lines; urls = added.urls }

save_page-CanSend :
    (format : ScrapingOutputFormat) (m : Moment) (s : Summary) (r : Run)
    → RunSends r
    → RunSends (save_page format m s r)
save_page-CanSend format m s r h =
    let added =
      add_urls-CanSend (discovered r.job.id m s.url ∷ []) r (discovered_one r.job.id m s.url) h in
    record { lines = added.lines; urls = added.urls }

each-CanSend :
    {A : Type 0} (save : Moment → A → Run → Run)
    → ((m : Moment) (a : A) (r : Run) → RunSends r → RunSends (save m a r))
    → (stream : Stream A) (r : Run) → RunSends r
    → RunSends (each save stream r).0
unfolding each
each-CanSend save keep Stream.finished r h = h
each-CanSend save keep (Stream.raised message) r h = h
each-CanSend save keep (Stream.yields m a stream) r h =
    let now = catch_up-CanSend m r h in
    if-first RunSends (is_cancelled r.job.id (catch_up m r).db)
      (note_cancelled m (catch_up m r), returned true) (each save stream (save m a (catch_up m r)))
      (note_cancelled-CanSend m (catch_up m r) now)
      (each-CanSend save keep stream (save m a (catch_up m r)) (keep m a (catch_up m r) now))

flush-CanSend :
    (pending : List DiscoveredUrl) (r : Run)
    → UrlsSend pending
    → RunSends r
    → RunSends (flush pending r)
flush-CanSend pending r k h =
    let added = add_urls-CanSend pending r k h in record { lines = added.lines; urls = added.urls }

module _ (decode_url : String → String) where
  shallow_loop-CanSend :
      (items : List (Moment × String)) (pending : List DiscoveredUrl) (r : Run)
      → UrlsSend pending
      → RunSends r
      → RunSends (shallow_loop decode_url items pending r).0
  unfolding shallow_loop
  shallow_loop-CanSend [] pending r k h = flush-CanSend pending r k h
  shallow_loop-CanSend ((m, url) ∷ items) pending r k h =
      let now = catch_up-CanSend m r h in
      if-first RunSends (is_cancelled r.job.id (catch_up m r).db)
        (note_cancelled m (flush pending (catch_up m r)), returned true)
        (shallow_loop decode_url items (pending ++ discovered r.job.id m (decode_url url) ∷ [])
          (catch_up m r))
        (note_cancelled-CanSend m (flush pending (catch_up m r))
          (flush-CanSend pending (catch_up m r) k now))
        (shallow_loop-CanSend items (pending ++ discovered r.job.id m (decode_url url) ∷ [])
          (catch_up m r) (All-append _ pending _ k (discovered_one r.job.id m (decode_url url)))
          now)

  pub run_sitemap-CanSend :
      (fetch : Fetch) (r : Run) → RunSends r → RunSends (run_sitemap decode_url fetch r).0
  unfolding run_sitemap
  run_sitemap-CanSend (Fetch.failed message) r h = h
  run_sitemap-CanSend (Fetch.fetched items) r h =
      each-CanSend (save_link decode_url) (λ m url. save_url-CanSend m (decode_url url))
        (stream_of items) r h

  pub run_link_extraction-CanSend :
      (strategy : LinkExtractionStrategy) (fetch : Fetch) (stream : Stream String) (r : Run)
      → RunSends r
      → RunSends (run_link_extraction decode_url strategy fetch stream r).0
  unfolding run_link_extraction
  run_link_extraction-CanSend LinkExtractionStrategy.shallow (Fetch.failed message) stream r h = h
  run_link_extraction-CanSend LinkExtractionStrategy.shallow (Fetch.fetched items) stream r h =
      shallow_loop-CanSend items [] r tt h
  run_link_extraction-CanSend LinkExtractionStrategy.deep fetch stream r h =
      each-CanSend (save_link decode_url) (λ m url. save_url-CanSend m (decode_url url)) stream r h

  pub run_crawler-CanSend :
      (format : ScrapingOutputFormat) (stream : Stream Content) (r : Run)
      → RunSends r
      → RunSends (run_crawler decode_url format stream r).0
  unfolding run_crawler
  run_crawler-CanSend format stream r h =
      each-CanSend (save_content decode_url format r.job.target_url)
        (λ m content.
          save_page-CanSend format m (summarize_content decode_url content r.job.target_url))
        stream r h

  warn_if_nothing-CanSend :
      (m : Moment) (count_text : String) (r : Run × Outcome)
      → RunSends r.0
      → RunSends (warn_if_nothing m count_text r).0
  unfolding log_line_out
  warn_if_nothing-CanSend m count_text (r, returned false) h =
      if-run RunSends (r.job.urls_scraped == 0) (log-CanSend (m.id 0) (m.t 0) "warn" _ r refl h) h
  warn_if_nothing-CanSend m count_text (r, returned true) h = h
  warn_if_nothing-CanSend m count_text (r, raised message) h = h

  pub run_scraper-CanSend :
      (show : ℕ → String) (format : ScrapingOutputFormat) (after : Moment)
      (scrape : List String → Stream ScrapedItem) (r : Run)
      → RunSends r
      → RunSends (run_scraper decode_url show format after scrape r).0
  unfolding run_scraper
  run_scraper-CanSend show format after scrape r h =
      let urls = seeds_or r.job.seed_urls r.job.target_url in
      warn_if_nothing-CanSend after (show (length urls))
        (each (save_item decode_url format r.job.target_url) (scrape urls) r)
        (each-CanSend (save_item decode_url format r.job.target_url)
          (λ m item.
            save_page-CanSend format m
              (summarize_content decode_url item.result (get_or item.url r.job.target_url)))
          (scrape (seeds_or r.job.seed_urls r.job.target_url)) r h)
