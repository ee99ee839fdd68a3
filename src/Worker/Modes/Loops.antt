-- ===== src/Worker/Modes/Loops.antt =====
-- The loops of worker/tasks.py, from their heads to their ends.
use onecrawler_backend.Prelude.{
  ℕ, ◌≡◌, refl, Bool, true, false, String, List, [], ◌∷◌, ◌++◌, ◌==◌, All, All-append,
  if◌then◌else◌, length, get_or,
}
use onecrawler_backend.Models.{LinkExtractionStrategy, ScrapingOutputFormat, DiscoveredUrl, Content}
use onecrawler_backend.Worker.Engine.{Moment, Fetch, Stream, ScrapedItem}
use onecrawler_backend.Worker.Summary.{summarize_content}
use onecrawler_backend.Worker.Modes.{
  Run, Outcome, returned, raised, catch_up, note_cancelled, each, stream_of, flush, is_cancelled,
  save_link, save_content, save_item, warn_if_nothing, discovered, shallow_loop, run_sitemap,
  run_link_extraction, run_crawler, run_scraper, seeds_or,
}
use onecrawler_backend.Worker.Modes.Sound.{
  Base, Sound, catch_up-Sound, log-Sound, flush-Sound, save_url-Sound, save_page-Sound,
}

pub if-first {ℓ} :
    {A B : Type 0} (P : A → Type ℓ) (t : Bool) (x y : A × B)
    → P x.0
    → P y.0
    → P (if t then x else y).0
if-first P true x y p q = p
if-first P false x y p q = q

pub if-run : (P : Run → Type 0) (t : Bool) {x y : Run} → P x → P y → P (if t then x else y)
if-run P true p q = p
if-run P false p q = q

module _ {b : Base} where
  pub each-Sound :
      {A : Type 0} (save : Moment → A → Run → Run)
      → ((m : Moment) (a : A) (r : Run) → Sound b r → Sound b (save m a r))
      → (stream : Stream A) (r : Run) → Sound b r
      → Sound b (each save stream r).0
  unfolding each
  each-Sound save keep Stream.finished r h = h
  each-Sound save keep (Stream.raised message) r h = h
  each-Sound save keep (Stream.yields m a stream) r h =
      let now = catch_up-Sound m.meanwhile r h in
      if-first (Sound b) (is_cancelled r.job.id (catch_up m r).db)
        (note_cancelled m (catch_up m r), returned true)
        (each save stream (save m a (catch_up m r)))
        (log-Sound (m.id 0) (m.t 0) "warn" "Cancelled before completion" (catch_up m r) now)
        (each-Sound save keep stream (save m a (catch_up m r)) (keep m a (catch_up m r) now))

  shallow_loop-Sound :
      (decode_url : String → String) (items : List (Moment × String)) (pending : List DiscoveredUrl)
      (r : Run)
      → All (λ d. d.job_id ≡ r.job.id) pending
      → Sound b r
      → Sound b (shallow_loop decode_url items pending r).0
  unfolding shallow_loop
  shallow_loop-Sound decode_url [] pending r mine h = flush-Sound pending r mine h
  shallow_loop-Sound decode_url ((m, url) ∷ items) pending r mine h =
      let now = catch_up-Sound m.meanwhile r h in
      if-first (Sound b) (is_cancelled r.job.id (catch_up m r).db)
        (note_cancelled m (flush pending (catch_up m r)), returned true)
        (shallow_loop decode_url items (pending ++ discovered r.job.id m (decode_url url) ∷ [])
          (catch_up m r))
        (log-Sound (m.id 0) (m.t 0) "warn" "Cancelled before completion"
          (flush pending (catch_up m r)) (flush-Sound pending (catch_up m r) mine now))
        (shallow_loop-Sound decode_url items
          (pending ++ discovered r.job.id m (decode_url url) ∷ []) (catch_up m r)
          (All-append (λ d. d.job_id ≡ r.job.id) pending
            (discovered r.job.id m (decode_url url) ∷ []) mine (refl, tt))
          now)

  warn_if_nothing-Sound :
      (m : Moment) (text : String) (e : Run × Outcome)
      → Sound b e.0
      → Sound b (warn_if_nothing m text e).0
  warn_if_nothing-Sound m text (r, returned false) h =
      if-run (Sound b) (r.job.urls_scraped == 0) (log-Sound (m.id 0) (m.t 0) "warn" _ r h) h
  warn_if_nothing-Sound m text (r, returned true) h = h
  warn_if_nothing-Sound m text (r, raised message) h = h

  module _ (decode_url : String → String) where
    save_link-Sound :
        (m : Moment) (url : String) (r : Run) → Sound b r → Sound b (save_link decode_url m url r)
    save_link-Sound m url = save_url-Sound m (decode_url url)

    pub run_sitemap-Sound :
        (fetch : Fetch) (r : Run) → Sound b r → Sound b (run_sitemap decode_url fetch r).0
    unfolding run_sitemap
    run_sitemap-Sound (Fetch.failed message) r h = h
    run_sitemap-Sound (Fetch.fetched items) r h =
        each-Sound (save_link decode_url) save_link-Sound (stream_of items) r h

    pub run_link_extraction-Sound :
        (strategy : LinkExtractionStrategy) (fetch : Fetch) (stream : Stream String) (r : Run)
        → Sound b r
        → Sound b (run_link_extraction decode_url strategy fetch stream r).0
    unfolding run_link_extraction
    run_link_extraction-Sound LinkExtractionStrategy.shallow (Fetch.failed message) stream r h = h
    run_link_extraction-Sound LinkExtractionStrategy.shallow (Fetch.fetched items) stream r h =
        shallow_loop-Sound decode_url items [] r tt h
    run_link_extraction-Sound LinkExtractionStrategy.deep fetch stream r h =
        each-Sound (save_link decode_url) save_link-Sound stream r h

    pub run_crawler-Sound :
        (format : ScrapingOutputFormat) (stream : Stream Content) (r : Run)
        → Sound b r
        → Sound b (run_crawler decode_url format stream r).0
    unfolding run_crawler
    run_crawler-Sound format stream r h =
        each-Sound (save_content decode_url format r.job.target_url)
          (λ m content.
            save_page-Sound format m (summarize_content decode_url content r.job.target_url))
          stream r h

    pub run_scraper-Sound :
        (show : ℕ → String) (format : ScrapingOutputFormat) (after : Moment)
        (scrape : List String → Stream ScrapedItem) (r : Run)
        → Sound b r
        → Sound b (run_scraper decode_url show format after scrape r).0
    unfolding run_scraper
    run_scraper-Sound show format after scrape r h =
        warn_if_nothing-Sound after (show (length (seeds_or r.job.seed_urls r.job.target_url)))
          (each (save_item decode_url format r.job.target_url)
            (scrape (seeds_or r.job.seed_urls r.job.target_url)) r)
          (each-Sound (save_item decode_url format r.job.target_url)
            (λ m item.
              save_page-Sound format m
                (summarize_content decode_url item.result (get_or item.url r.job.target_url)))
            (scrape (seeds_or r.job.seed_urls r.job.target_url)) r h)
