-- ===== src/Agent/Tools/Crawling.antt =====
-- The tools of agent/tools.py that read and change crawl jobs.
use onecrawler_backend.Prelude.{ℤ, pos, String, Bool, Option, none, some, List, [], ◌∷◌, ◌++◌}
use onecrawler_backend.Exec.{pure, or_raise, ◌>>=◌, ◌>>◌}
use onecrawler_backend.Models.{Uuid}
use onecrawler_backend.Crawls.{
  create_crawl, cancel_crawl, retry_crawl, delete_crawl, scrape_discovered_urls,
}
use onecrawler_backend.Crawls.Reading.{list_crawls, get_crawl_logs, list_discovered_urls}
use onecrawler_backend.Crawls.Detail.{get_crawl}
use onecrawler_backend.Crawls.Bodies.{
  Entry, SettingsBody, read_settings, parse_mode, validate_request,
}
use onecrawler_backend.Agent.Tools.{
  Outside, AgentDeps, Draw, Tool, no_content, a_job, jobs, detail, logs, discovered, query, sends,
  request,
}

-- the arguments that set up a crawl
pub record Knobs : Type 0 where
  pub max_pages : Option ℤ
  pub concurrency : Option ℤ
  pub scraping_strategy : Option String
  pub include_link_patterns : Option (List String)
  pub exclude_link_patterns : Option (List String)
  pub enable_human_behaviors : Option Bool

-- `if x is not None: settings[key] = x`
abbrev pub entry {ℓ} : {A : Type ℓ} → (A → Entry) → Option A → List Entry
entry key none = []
entry key (some a) = key a ∷ []

unfoldable pub crawl_settings : Knobs → SettingsBody
crawl_settings k = record {
  viewport = record { width = pos 1280; height = pos 800 };
  entries =
      entry Entry.link_extraction_limit k.max_pages
      ++ entry Entry.concurrency k.concurrency
      ++ entry Entry.scraping_strategy k.scraping_strategy
      ++ entry Entry.include_link_patterns k.include_link_patterns
      ++ entry Entry.exclude_link_patterns k.exclude_link_patterns
      ++ entry Entry.enable_human_behaviors k.enable_human_behaviors;
}

-- `create_crawl` sends every argument, `scrape_discovered_urls` no patterns.
abbrev pub without_patterns : Knobs → Knobs
without_patterns k = record k { include_link_patterns = none; exclude_link_patterns = none }

module _ {Token : Type 0} (outside : Outside Token) (deps : AgentDeps Token) (draw : Draw) where
  unfoldable pub create_crawl_tool : String → String → Knobs → Tool
  unfolding request crawl_settings read_settings parse_mode validate_request create_crawl
  create_crawl_tool target_url mode knobs = request outside deps draw λ user_id. do
    crawl_mode ← or_raise (parse_mode mode) 422 ""
    settings ← or_raise (read_settings (crawl_settings knobs)) 422 ""
    payload ←
        or_raise
          (validate_request outside.urlparse outside.strptime (record {
            target_url = target_url;
            mode = crawl_mode;
            settings = settings;
            filters = none;
          }))
          422 ""
    sends a_job (create_crawl user_id payload draw.new_id draw.now)

  unfoldable pub list_crawls_tool : Option String → Option String → Option ℤ → Option ℤ → Tool
  unfolding request list_crawls
  list_crawls_tool status q limit offset = request outside deps draw λ user_id. do
    n ← query limit 20
    from ← query offset 0
    sends jobs (list_crawls outside.ilike user_id status q n from)

  unfoldable pub get_crawl_tool : Uuid → Tool
  unfolding request get_crawl
  get_crawl_tool job_id =
      request outside deps draw λ user_id. sends detail (get_crawl user_id job_id)

  unfoldable pub cancel_crawl_tool : Uuid → Tool
  unfolding request cancel_crawl
  cancel_crawl_tool job_id =
      request outside deps draw λ user_id. sends a_job (cancel_crawl user_id job_id draw.now)

  unfoldable pub retry_crawl_tool : Uuid → Tool
  unfolding request retry_crawl
  retry_crawl_tool job_id =
      request outside deps draw
        λ user_id. sends a_job (retry_crawl user_id job_id draw.new_id draw.now)

  unfoldable pub delete_crawl_tool : Uuid → Tool
  unfolding request delete_crawl
  delete_crawl_tool job_id =
      request outside deps draw λ user_id. do delete_crawl user_id job_id; pure no_content

  unfoldable pub get_crawl_logs_tool : Uuid → Option ℤ → Option ℤ → Tool
  unfolding request get_crawl_logs
  get_crawl_logs_tool job_id limit offset = request outside deps draw λ user_id. do
    n ← query limit 50
    from ← query offset 0
    sends logs (get_crawl_logs user_id job_id n from)

  unfoldable pub list_discovered_urls_tool : Uuid → Option ℤ → Option ℤ → Tool
  unfolding request list_discovered_urls
  list_discovered_urls_tool job_id limit offset = request outside deps draw λ user_id. do
    n ← query limit 50
    from ← query offset 0
    sends discovered (list_discovered_urls user_id job_id n from)

  unfoldable pub scrape_discovered_urls_tool : Uuid → Knobs → Tool
  unfolding request crawl_settings read_settings scrape_discovered_urls
  scrape_discovered_urls_tool job_id knobs = request outside deps draw λ user_id. do
    settings ← or_raise (read_settings (crawl_settings (without_patterns knobs))) 422 ""
    sends a_job (scrape_discovered_urls user_id job_id settings draw.new_id draw.now)
