-- ===== src/Agent/Tools/Reading.antt =====
-- The tools of agent/tools.py that read the dashboard, the results, the templates and the web.
use onecrawler_backend.Prelude.{
  ltb, ℤ, pos, negsuc, String, Option, none, some, List, map, if◌then◌else◌, str_eq, has_text,
  text_of,
}
use onecrawler_backend.Exec.{pure, or_raise, ◌>>=◌}
use onecrawler_backend.Models.{Uuid}
use onecrawler_backend.Data.{ExportArchiveFormat, list_data, get_data_item, export_data}
use onecrawler_backend.Configuration.Templates.{list_crawl_templates, get_crawl_template}
use onecrawler_backend.Configuration.Dashboard.{get_overview}
use onecrawler_backend.Agent.Tools.{
  Outside, AgentDeps, Draw, Tool, file, overview, data_page, item, templates, template, hits, query,
  sends, request, SearchResult, SearchHit, ToolResult, returned, raised, no_search_key,
  search_failed,
}

abbrev pub parse_archive : String → Option ExportArchiveFormat
parse_archive t =
    if str_eq t "zip"
    then some ExportArchiveFormat.zip
    else if str_eq t "ndjson"
    then some ExportArchiveFormat.ndjson
    else none

-- `min(max_results, 20)`
abbrev pub at_most_20 : ℤ → ℤ
at_most_20 (pos n) = if ltb 20 n then pos 20 else pos n
at_most_20 (negsuc n) = negsuc n

abbrev pub search_hit : SearchResult → SearchHit
search_hit r = record { title = r.title; url = r.url; snippet = r.content }

abbrev pub read_search : Option (List SearchResult) → ToolResult
read_search none = raised search_failed
read_search (some found) = returned (hits (map search_hit found))

module _ {Token : Type 0} (outside : Outside Token) (deps : AgentDeps Token) (draw : Draw) where
  unfoldable pub get_dashboard_overview_tool : Tool
  unfolding request get_overview
  get_dashboard_overview_tool =
      request outside deps draw λ user_id. sends overview (get_overview user_id)

  unfoldable pub list_data_tool :
      Option Uuid → Option String → Option String → Option ℤ → Option ℤ → Tool
  unfolding request list_data
  list_data_tool job_id format q limit offset = request outside deps draw λ user_id. do
    n ← query limit 50
    from ← query offset 0
    sends data_page (list_data outside.ilike user_id job_id format q n from)

  unfoldable pub get_data_item_tool : Uuid → Tool
  unfolding request get_data_item
  get_data_item_tool result_id =
      request outside deps draw λ user_id. sends item (get_data_item user_id result_id)

  unfoldable pub export_data_tool :
      Option Uuid → Option (List Uuid) → Option String → Option String → String → Tool
  unfolding request export_data
  export_data_tool job_id ids q format archive_format = request outside deps draw λ user_id. do
    archived ← or_raise (parse_archive archive_format) 422 ""
    sent ←
        export_data outside.ilike user_id
          (record { ids = ids; job_id = job_id; format = format; q = q; archive_format = archived })
    pure (file sent)

  unfoldable pub list_crawl_templates_tool : Tool
  unfolding request list_crawl_templates
  list_crawl_templates_tool =
      request outside deps draw
        λ user_id. sends templates (list_crawl_templates outside.collates user_id)

  unfoldable pub get_crawl_template_tool : Uuid → Tool
  unfolding request get_crawl_template
  get_crawl_template_tool template_id =
      request outside deps draw λ user_id. sends template (get_crawl_template user_id template_id)

  -- The service is not the API: it is asked without the user's token, and nothing is written.
  unfoldable pub web_search_tool : String → ℤ → Tool
  web_search_tool text max_results s =
      if has_text deps.search_api_key
      then (
        read_search (outside.search (text_of deps.search_api_key) text (at_most_20 max_results)),
        s,
      )
      else (raised no_search_key, s)
