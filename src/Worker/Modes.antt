-- ===== src/Worker/Modes.antt =====
-- The four loops of worker/tasks.py. The worker's session keeps its own copy of the job's row, and
-- a commit writes to the database the columns that were assigned since the last one.
pub mod Rows
pub mod Sound
pub mod Loops
pub mod Stopping
pub mod Sending
use onecrawler_backend.Prelude.{
  ℕ, ◌+◌, String, Bool, true, false, Option, none, some, List, [], ◌∷◌, ◌++◌, ◌==◌, if◌then◌else◌,
  get_or, str_append, length,
}
use onecrawler_backend.Tables.{find, update, insert}
use onecrawler_backend.Models.{
  Uuid, CrawlJob, CrawlStatus, DiscoveredUrl, CrawlResultItem, LogLine, LinkExtractionStrategy,
  ScrapingOutputFormat, Content,
}
use onecrawler_backend.Backend.{Backend}
use onecrawler_backend.Crawls.{has_id}
use onecrawler_backend.Worker.Requests.{perform_all}
use onecrawler_backend.Worker.Engine.{Moment, Fetch, Stream, ScrapedItem}
use onecrawler_backend.Worker.Summary.{Summary, summarize_content}

-- `job`, as the session holds it, and the database.
pub record Run : Type 0 where
  pub job : CrawlJob
  pub db : Backend

-- How a mode ends: `return cancelled`, or an exception with its text.
pub data Outcome : Type 0 where
  returned : Bool → Outcome
  raised : String → Outcome

-- assignments to columns of `job`, and the commit that writes them
abbrev pub assign : (CrawlJob → CrawlJob) → Run → Run
assign f r = record {
  job = f r.job;
  db = record (r.db) { crawl_jobs = update (has_id r.job.id) f r.db.crawl_jobs };
}

-- `log`: one line, and a commit
abbrev pub log : Uuid → ℕ → String → String → Run → Run
log id now level message r = record r {
  db = record (r.db) {
    log_lines =
        insert
          (record { id = id; job_id = r.job.id; timestamp = now; level = level; message = message })
          r.db.log_lines;
  };
}

abbrev status_is_cancelled : Option CrawlJob → Bool
status_is_cancelled none = false
status_is_cancelled (some job) = elim job.status [ CrawlStatus.cancelled ↦ true | _ ↦ false ]

-- the status in the database, not the session's copy
unfoldable pub is_cancelled : Uuid → Backend → Bool
is_cancelled job_id db = status_is_cancelled (find (has_id job_id) db.crawl_jobs)

-- what the API did since the last round
abbrev pub catch_up : Moment → Run → Run
catch_up m r = record r { db = perform_all m.meanwhile r.db }

abbrev pub note_cancelled : Moment → Run → Run
note_cancelled m r = log (m.id 0) (m.t 0) "warn" "Cancelled before completion" r

abbrev pub discovered : Uuid → Moment → String → DiscoveredUrl
discovered job_id m url = record {
  id = m.id 0;
  job_id = job_id;
  url = url;
  discovered_at = m.t 0;
  status = "extracted";
}

abbrev pub add_urls : List DiscoveredUrl → Run → Run
add_urls rows r = record r { db = record (r.db) { discovered_urls = r.db.discovered_urls ++ rows } }

-- `job.urls_discovered = n`
abbrev pub set_discovered : ℕ → CrawlJob → CrawlJob
set_discovered n job = record job { urls_discovered = n }

-- a `DiscoveredUrl`, `urls_discovered += 1` and a commit
abbrev pub save_url : Moment → String → Run → Run
save_url m url r =
    assign (set_discovered (r.job.urls_discovered + 1))
      (add_urls (discovered r.job.id m url ∷ []) r)

-- The loop that every mode but the shallow one runs over what the engine yields: stop if the job
-- was cancelled, or else save the page and go on.
unfoldable pub each : {A : Type 0} → (Moment → A → Run → Run) → Stream A → Run → Run × Outcome
each save Stream.finished r = (r, returned false)
each save (Stream.raised message) r = (r, raised message)
each save (Stream.yields m a stream) r =
    let now = catch_up m r in
    let rest = each save stream (save m a now) in
    if is_cancelled r.job.id now.db then (note_cancelled m now, returned true) else rest

-- `for url in urls`
abbrev pub stream_of : List (Moment × String) → Stream String
stream_of [] = Stream.finished
stream_of ((m, url) ∷ items) = Stream.yields m url (stream_of items)

-- `job.urls_discovered += …` for the rows that wait, and the commit
abbrev pub flush : List DiscoveredUrl → Run → Run
flush pending r =
    assign (set_discovered (r.job.urls_discovered + length pending)) (add_urls pending r)

abbrev pub result_item : Uuid → Moment → ScrapingOutputFormat → Summary → CrawlResultItem
result_item job_id m format s = record {
  id = m.id 1;
  job_id = job_id;
  url = s.url;
  title = s.title;
  word_count = s.word_count;
  format = format;
  extracted_at = m.t 1;
  preview = s.preview;
  content = s.payload;
}

abbrev pub set_counts : ℕ → ℕ → CrawlJob → CrawlJob
set_counts n k job = record job { urls_discovered = n; urls_scraped = k }

abbrev pub add_result : CrawlResultItem → Run → Run
add_result item r = record r {
  db = record (r.db) { crawl_result_items = insert item r.db.crawl_result_items };
}

-- a `DiscoveredUrl`, a `CrawlResultItem`, both counts and a commit
abbrev pub save_page : ScrapingOutputFormat → Moment → Summary → Run → Run
save_page format m s r =
    assign (set_counts (r.job.urls_discovered + 1) (r.job.urls_scraped + 1))
      (add_result (result_item r.job.id m format s) (add_urls (discovered r.job.id m s.url ∷ []) r))

-- `job.seed_urls or [job.target_url]`
abbrev pub seeds_or : Option (List String) → String → List String
seeds_or none url = url ∷ []
seeds_or (some []) url = url ∷ []
seeds_or (some (u ∷ us)) url = u ∷ us

-- `if job.urls_scraped == 0:` after the loop
abbrev pub warn_if_nothing : Moment → String → Run × Outcome → Run × Outcome
warn_if_nothing m count_text (r, returned false) = (
  if r.job.urls_scraped == 0
      then log (m.id 0) (m.t 0) "warn"
          (str_append "Scraped nothing from " (str_append count_text " URL(s)")) r
      else r,
  returned false,
)
warn_if_nothing m count_text (r, returned true) = (r, returned true)
warn_if_nothing m count_text (r, raised message) = (r, raised message)

module _ (decode_url : String → String) where
  abbrev pub save_link : Moment → String → Run → Run
  save_link m url = save_url m (decode_url url)

  unfoldable pub run_sitemap : Fetch → Run → Run × Outcome
  run_sitemap (Fetch.failed message) r = (r, raised message)
  run_sitemap (Fetch.fetched items) r = each save_link (stream_of items) r

  -- The loop of the shallow strategy. Its rows and its count wait for the commit after the loop,
  -- or for the one that `log` makes.
  unfoldable pub shallow_loop : List (Moment × String) → List DiscoveredUrl → Run → Run × Outcome
  shallow_loop [] pending r = (flush pending r, returned false)
  shallow_loop ((m, url) ∷ items) pending r =
      let now = catch_up m r in
      let rest = shallow_loop items (pending ++ discovered r.job.id m (decode_url url) ∷ []) now in
      if is_cancelled r.job.id now.db
      then (note_cancelled m (flush pending now), returned true)
      else rest

  unfoldable pub run_link_extraction :
      LinkExtractionStrategy → Fetch → Stream String → Run → Run × Outcome
  unfolding shallow_loop
  run_link_extraction LinkExtractionStrategy.shallow (Fetch.failed message) stream r =
      (r, raised message)
  run_link_extraction LinkExtractionStrategy.shallow (Fetch.fetched items) stream r =
      shallow_loop items [] r
  run_link_extraction LinkExtractionStrategy.deep fetch stream r = each save_link stream r

  abbrev pub save_content : ScrapingOutputFormat → String → Moment → Content → Run → Run
  save_content format target_url m content =
      save_page format m (summarize_content decode_url content target_url)

  unfoldable pub run_crawler : ScrapingOutputFormat → Stream Content → Run → Run × Outcome
  run_crawler format stream r = each (save_content format r.job.target_url) stream r

  abbrev pub save_item : ScrapingOutputFormat → String → Moment → ScrapedItem → Run → Run
  save_item format target_url m item =
      save_page format m (summarize_content decode_url item.result (get_or item.url target_url))

  -- `show` prints a number; `after` is what the log line after the loop draws.
  unfoldable pub run_scraper :
      (ℕ → String)
      → ScrapingOutputFormat
      → Moment
      → (List String → Stream ScrapedItem)
      → Run
      → Run × Outcome
  run_scraper show format after scrape r =
      let urls = seeds_or r.job.seed_urls r.job.target_url in
      warn_if_nothing after (show (length urls))
        (each (save_item format r.job.target_url) (scrape urls) r)
