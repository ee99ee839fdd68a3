-- ===== src/Agent/Tools/Kept.antt =====
-- What the tools of agent/tools.py leave as it was: from the writes of api/v1/crawler/router.py to
-- the tools, for an invariant.
use onecrawler_backend.Prelude.{ℕ, ℤ, String, has_text, inl, inr, Bool-cases}
use onecrawler_backend.Exec.Preserves.{Preserves}
use onecrawler_backend.Models.{CrawlJob}
use onecrawler_backend.Backend.{Backend}
use onecrawler_backend.Crawls.{submit, set_cancelled, remove_job}
use onecrawler_backend.Crawls.Writes.{
  scrape_keeps, retry_crawl_keeps, cancel_crawl_keeps, delete_crawl_keeps,
}
use onecrawler_backend.Agent.Tools.{Outside, AgentDeps, Draw}
use onecrawler_backend.Agent.Tools.Reads.{ToolKeeps, reading_rules}
use onecrawler_backend.Agent.Tools.Crawling.{
  create_crawl_tool, list_crawls_tool, get_crawl_tool, cancel_crawl_tool, retry_crawl_tool,
  delete_crawl_tool, get_crawl_logs_tool, list_discovered_urls_tool, scrape_discovered_urls_tool,
}
use onecrawler_backend.Agent.Tools.Reading.{
  get_dashboard_overview_tool, list_data_tool, get_data_item_tool, export_data_tool,
  list_crawl_templates_tool, get_crawl_template_tool, web_search_tool,
}
use onecrawler_backend.Agent.Tools.Toolbox.{
  ToolCall, create_crawl, list_crawls, get_crawl, cancel_crawl, retry_crawl, delete_crawl,
  get_crawl_logs, list_discovered_urls, scrape_discovered_urls, get_dashboard_overview, list_data,
  get_data_item, export_data, list_crawl_templates, get_crawl_template, web_search, run_tool,
}

module _ {Token : Type 0} (outside : Outside Token) (deps : AgentDeps Token) {P : Backend → Type 0}
    (on_submit : (job : CrawlJob) → Preserves P (submit job))
    (on_cancel : (now : ℕ) (job : CrawlJob) → Preserves P (set_cancelled now job))
    (on_remove : (job : CrawlJob) → Preserves P (remove_job job)) where
  web_search_keeps :
      (draw : Draw) (query : String) (n : ℤ)
      → ToolKeeps P (web_search_tool outside deps draw query n)
  unfolding web_search_tool
  web_search_keeps draw query n = record {
    holds =
        λ s h. elim (Bool-cases (has_text deps.search_api_key)) [ inl e ↦ rw e h | inr e ↦ rw e h ];
  }

  -- A tool keeps what the three writes that it may lead to keep.
  pub run_tool_keeps : (c : ToolCall) (draw : Draw) → ToolKeeps P (run_tool outside deps c draw)
  unfolding run_tool create_crawl_tool list_crawls_tool get_crawl_tool cancel_crawl_tool
      retry_crawl_tool delete_crawl_tool get_crawl_logs_tool list_discovered_urls_tool
      scrape_discovered_urls_tool get_dashboard_overview_tool list_data_tool get_data_item_tool
      export_data_tool list_crawl_templates_tool get_crawl_template_tool
  run_tool_keeps (create_crawl url mode knobs) draw = search reading_rules depth 12
  run_tool_keeps (list_crawls status q n from) draw = search reading_rules depth 12
  run_tool_keeps (get_crawl id) draw = search reading_rules depth 12
  run_tool_keeps (cancel_crawl id) draw =
      search (reading_rules, cancel_crawl_keeps on_cancel) depth 12
  run_tool_keeps (retry_crawl id) draw =
      search (reading_rules, retry_crawl_keeps on_submit) depth 12
  run_tool_keeps (delete_crawl id) draw =
      search (reading_rules, delete_crawl_keeps on_remove) depth 12
  run_tool_keeps (get_crawl_logs id n from) draw = search reading_rules depth 12
  run_tool_keeps (list_discovered_urls id n from) draw = search reading_rules depth 12
  run_tool_keeps (scrape_discovered_urls id knobs) draw =
      search (reading_rules, scrape_keeps on_submit) depth 12
  run_tool_keeps get_dashboard_overview draw = search reading_rules depth 12
  run_tool_keeps (list_data job format q n from) draw = search reading_rules depth 12
  run_tool_keeps (get_data_item id) draw = search reading_rules depth 12
  run_tool_keeps (export_data job ids q format archived) draw = search reading_rules depth 12
  run_tool_keeps list_crawl_templates draw = search reading_rules depth 12
  run_tool_keeps (get_crawl_template id) draw = search reading_rules depth 12
  run_tool_keeps (web_search query n) draw = web_search_keeps draw query n
