-- ===== src/Agent/Tools/Toolbox.antt =====
-- `TOOLS` and `EventToolbox` of agent/tools.py.
use onecrawler_backend.Prelude.{ℤ, String, Bool, Option, List, [], ◌∷◌, if◌then◌else◌}
use onecrawler_backend.Models.{Uuid}
use onecrawler_backend.Backend.{Backend}
use onecrawler_backend.Agent.Tools.{
  Outside, AgentDeps, Draw, Tool, Reply, ToolResult, returned, raised, ToolError,
}
use onecrawler_backend.Agent.Tools.Crawling.{
  Knobs, create_crawl_tool, list_crawls_tool, get_crawl_tool, cancel_crawl_tool, retry_crawl_tool,
  delete_crawl_tool, get_crawl_logs_tool, list_discovered_urls_tool, scrape_discovered_urls_tool,
}
use onecrawler_backend.Agent.Tools.Reading.{
  get_dashboard_overview_tool, list_data_tool, get_data_item_tool, export_data_tool,
  list_crawl_templates_tool, get_crawl_template_tool, web_search_tool,
}

-- The name of a tool with the arguments of the call. The source takes any text for an id; the calls
-- here are those in which each id is a UUID, which stands as a number, as everywhere.
pub data ToolCall : Type 0 where
  create_crawl : String → String → Knobs → ToolCall
  list_crawls : Option String → Option String → Option ℤ → Option ℤ → ToolCall
  get_crawl cancel_crawl retry_crawl delete_crawl : Uuid → ToolCall
  get_crawl_logs list_discovered_urls : Uuid → Option ℤ → Option ℤ → ToolCall
  scrape_discovered_urls : Uuid → Knobs → ToolCall
  get_dashboard_overview : ToolCall
  list_data : Option Uuid → Option String → Option String → Option ℤ → Option ℤ → ToolCall
  get_data_item : Uuid → ToolCall
  export_data : Option Uuid → Option (List Uuid) → Option String → Option String → String → ToolCall
  list_crawl_templates : ToolCall
  get_crawl_template : Uuid → ToolCall
  web_search : String → ℤ → ToolCall

-- what the toolbox puts in the queue
pub data ToolEvent : Type 0 where
  tool_call : ToolCall → ToolEvent
  tool_result : ToolCall → Reply → ToolEvent
  tool_error : ToolCall → ToolError → ToolEvent

abbrev pub outcome : ToolCall → ToolResult → ToolEvent
outcome c (returned reply) = tool_result c reply
outcome c (raised error) = tool_error c error

module _ {Token : Type 0} (outside : Outside Token) (deps : AgentDeps Token) where
  -- `Toolbox.call`: the tool that the name stands for
  unfoldable pub run_tool : ToolCall → Draw → Tool
  run_tool (create_crawl url mode knobs) draw = create_crawl_tool outside deps draw url mode knobs
  run_tool (list_crawls status q n from) draw = list_crawls_tool outside deps draw status q n from
  run_tool (get_crawl id) draw = get_crawl_tool outside deps draw id
  run_tool (cancel_crawl id) draw = cancel_crawl_tool outside deps draw id
  run_tool (retry_crawl id) draw = retry_crawl_tool outside deps draw id
  run_tool (delete_crawl id) draw = delete_crawl_tool outside deps draw id
  run_tool (get_crawl_logs id n from) draw = get_crawl_logs_tool outside deps draw id n from
  run_tool (list_discovered_urls id n from) draw =
      list_discovered_urls_tool outside deps draw id n from
  run_tool (scrape_discovered_urls id knobs) draw =
      scrape_discovered_urls_tool outside deps draw id knobs
  run_tool get_dashboard_overview draw = get_dashboard_overview_tool outside deps draw
  run_tool (list_data job format q n from) draw =
      list_data_tool outside deps draw job format q n from
  run_tool (get_data_item id) draw = get_data_item_tool outside deps draw id
  run_tool (export_data job ids q format archived) draw =
      export_data_tool outside deps draw job ids q format archived
  run_tool list_crawl_templates draw = list_crawl_templates_tool outside deps draw
  run_tool (get_crawl_template id) draw = get_crawl_template_tool outside deps draw id
  run_tool (web_search text max_results) draw = web_search_tool outside deps draw text max_results

  -- `EventToolbox.call`, with a queue or without one: what the tool did, and what went into the
  -- queue
  unfoldable pub call : Bool → ToolCall → Draw → Backend → ToolResult × List ToolEvent × Backend
  unfolding run_tool
  call events c draw s =
      let done = run_tool c draw s in
      if events then (done.0, tool_call c ∷ outcome c done.0 ∷ [], done.1) else (done.0, [], done.1)

abbrev pub tool_name : ToolCall → String
tool_name (create_crawl url mode knobs) = "create_crawl"
tool_name (list_crawls status q n from) = "list_crawls"
tool_name (get_crawl id) = "get_crawl"
tool_name (cancel_crawl id) = "cancel_crawl"
tool_name (retry_crawl id) = "retry_crawl"
tool_name (delete_crawl id) = "delete_crawl"
tool_name (get_crawl_logs id n from) = "get_crawl_logs"
tool_name (list_discovered_urls id n from) = "list_discovered_urls"
tool_name (scrape_discovered_urls id knobs) = "scrape_discovered_urls"
tool_name get_dashboard_overview = "get_dashboard_overview"
tool_name (list_data job format q n from) = "list_data"
tool_name (get_data_item id) = "get_data_item"
tool_name (export_data job ids q format archived) = "export_data"
tool_name list_crawl_templates = "list_crawl_templates"
tool_name (get_crawl_template id) = "get_crawl_template"
tool_name (web_search text max_results) = "web_search"
