-- ===== src/Crawls/Seeds.antt =====
-- The scraping job that `scrape_discovered_urls` queues.
use onecrawler_backend.Prelude.{
  ℕ, ◌≡◌, ◌∙◌, refl, sym, ap, inl, inr, Bool, false, ◌||◌, none, some, String, List, [], ◌∷◌, map,
  ◌==◌, is_empty, length, pos, str_eq, eq_iff, arith, Bool-cases,
}
use onecrawler_backend.Tables.{find, insert, select}
use onecrawler_backend.Tables.Order.{order_by}
use onecrawler_backend.Exec.{ok}
use onecrawler_backend.Models.{
  Uuid, CrawlJob, CrawlStatus, CrawlMode, CrawlSettingsIn, DiscoveredUrl,
}
use onecrawler_backend.Backend.{Backend}
use onecrawler_backend.Crawls.{
  is_owned, first_occurrences, without_text, urls_to_scrape, scrape_discovered_urls,
}

-- whether a text is listed
abbrev pub is_listed : String → List String → Bool
is_listed u [] = false
is_listed u (v ∷ vs) = str_eq u v || is_listed u vs

-- No text is listed twice.
abbrev pub IsDistinct : List String → Type 0
IsDistinct [] = Unit
IsDistinct (u ∷ us) = (is_listed u us ≡ false) × IsDistinct us

is_listed-without_text :
    (u w : String) (us : List String)
    → str_eq u w ≡ false
    → is_listed u (without_text w us) ≡ is_listed u us
is_listed-without_text u w [] e = refl
is_listed-without_text u w (v ∷ vs) e = elim (Bool-cases (str_eq w v)) [
  | inl h ↦
      let same : w ≡ v = (eq_iff w v).0 h in
      let other : str_eq u v ≡ false = ap (str_eq u) (sym same) ∙ e in
      rw (h, other) (is_listed-without_text u w vs e)
  | inr h ↦ rw (h, is_listed-without_text u w vs e)
]

is_listed-without_text_same :
    (u : String) (us : List String) → is_listed u (without_text u us) ≡ false
is_listed-without_text_same u [] = refl
is_listed-without_text_same u (v ∷ vs) = ground (arith, is_listed-without_text_same u vs)

-- Dropping a text lists nothing new.
is_listed-without_text_less :
    (u w : String) (us : List String)
    → is_listed u us ≡ false
    → is_listed u (without_text w us) ≡ false
is_listed-without_text_less u w [] e = e
is_listed-without_text_less u w (v ∷ vs) e = ground (arith, is_listed-without_text_less u w vs)

without_text-IsDistinct :
    (w : String) (us : List String) → IsDistinct us → IsDistinct (without_text w us)
without_text-IsDistinct w [] h = tt
without_text-IsDistinct w (v ∷ vs) h = elim (Bool-cases (str_eq w v)) [
  | inl e ↦ rw e (without_text-IsDistinct w vs h.1)
  | inr e ↦ rw e (is_listed-without_text_less v w vs h.0, without_text-IsDistinct w vs h.1)
]

first_occurrences-IsDistinct : (us : List String) → IsDistinct (first_occurrences us)
unfolding first_occurrences
first_occurrences-IsDistinct [] = tt
first_occurrences-IsDistinct (u ∷ us) = (
  is_listed-without_text_same u (first_occurrences us),
  without_text-IsDistinct u (first_occurrences us) (first_occurrences-IsDistinct us),
)

-- A list without its repetitions lists what the list did, and each text once.
is_listed-first_occurrences :
    (u : String) (us : List String) → is_listed u (first_occurrences us) ≡ is_listed u us
unfolding first_occurrences
is_listed-first_occurrences u [] = refl
is_listed-first_occurrences u (v ∷ vs) = elim (Bool-cases (str_eq u v)) [
  | inl e ↦ rw e
  | inr e ↦
      rw e (is_listed-without_text u v (first_occurrences vs) e ∙ is_listed-first_occurrences u vs)
]

-- the urls of the job's rows, in the order of discovery, with their repetitions
abbrev pub discovered_texts : Uuid → Backend → List String
discovered_texts id s =
    map (λ (d : DiscoveredUrl). d.url)
      (order_by (λ (d : DiscoveredUrl). d.discovered_at)
        (select (λ (d : DiscoveredUrl). d.job_id == id) s.discovered_urls))

-- What the queued job scrapes: for a job of the user with discovered URLs, one new job is queued
-- whose seeds are distinct, are exactly the URLs discovered, and are as many as its limit says.
pub scrape_discovered_urls-seeds :
    (user id new_id : Uuid) (settings : CrawlSettingsIn) (now : ℕ) (s : Backend) (source : CrawlJob)
    → find (is_owned user id) s.crawl_jobs ≡ some source
    → is_empty (urls_to_scrape id s) ≡ false
    → (job : CrawlJob) × (seeds : List String) × (scrape_discovered_urls user id settings new_id now
          s
        ≡ (
          ok job,
          record s { crawl_jobs = insert job s.crawl_jobs; queue = insert new_id s.queue },
        ))
      × (job.seed_urls ≡ some seeds)
      × IsDistinct seeds
      × ((u : String) → is_listed u seeds ≡ is_listed u (discovered_texts id s))
      × (job.url_limit ≡ pos (length seeds))
      × (job.status ≡ CrawlStatus.queued)
      × (job.mode ≡ CrawlMode.scraper)
unfolding scrape_discovered_urls urls_to_scrape
scrape_discovered_urls-seeds user id new_id settings now s source e some_urls = (
  record {
    id = new_id;
    user_id = source.user_id;
    target_url = source.target_url;
    mode = CrawlMode.scraper;
    status = CrawlStatus.queued;
    settings = settings;
    filters = none;
    seed_urls = some (urls_to_scrape id s);
    error = none;
    created_at = now;
    started_at = none;
    finished_at = none;
    urls_discovered = 0;
    urls_scraped = 0;
    urls_failed = 0;
    url_limit = pos (length (urls_to_scrape id s));
  },
  urls_to_scrape id s,
  rw (e, some_urls),
  refl,
  first_occurrences-IsDistinct (discovered_texts id s),
  (λ u. is_listed-first_occurrences u (discovered_texts id s)),
  refl,
  refl,
  refl,
)
