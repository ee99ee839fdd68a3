-- ===== src/Agent/Tools/Reads.antt =====
-- The handlers that only read, behind the tools of agent/tools.py, for an invariant.
use onecrawler_backend.Prelude.{ℕ, ℤ, pos, negsuc, String, Bool, Option, none, some}
use onecrawler_backend.Exec.{Exec, raise}
use onecrawler_backend.Exec.Preserves.{Preserves, Preserves-bind, preserves_rules}
use onecrawler_backend.Models.{Uuid}
use onecrawler_backend.Backend.{Backend}
use onecrawler_backend.Auth.{Config, Jwt, get_current_user}
use onecrawler_backend.Crawls.Reading.{list_crawls, get_crawl_logs, list_discovered_urls}
use onecrawler_backend.Crawls.Detail.{get_crawl}
use onecrawler_backend.Crawls.Writes.{owned_job_keeps}
use onecrawler_backend.Configuration.Templates.{list_crawl_templates, get_crawl_template}
use onecrawler_backend.Configuration.Dashboard.{get_overview}
use onecrawler_backend.Data.{DataExportRequest, owned_result, list_data, get_data_item, export_data}
use onecrawler_backend.Agent.Tools.{Outside, AgentDeps, Draw, Response, Tool, query, request}

-- The state keeps `P`, whether the tool returns or raises.
pub record ToolKeeps (P : Backend → Type 0) (t : Tool) : Type 0 where
  pub holds : (s : Backend) → P s → P (t s).1

module _ {P : Backend → Type 0} where
  pub raise_keeps : {A : Type 0} (c : ℕ) (d : String) → Preserves P (raise {A = A} c d)
  unfolding raise
  raise_keeps c d = record { holds = λ s h. h }

  pub query_keeps : (n : Option ℤ) (default : ℕ) → Preserves P (query n default)
  query_keeps none default = search preserves_rules
  query_keeps (some (pos n)) default = search preserves_rules
  query_keeps (some (negsuc n)) default = raise_keeps 422 ""

  pub get_current_user_keeps :
      {Token : Type 0} (config : Config) (jwt : Jwt Token) (now : ℕ) (token : Token)
      → Preserves P (get_current_user config jwt now token)
  unfolding get_current_user
  get_current_user_keeps config jwt now token = search preserves_rules depth 12

  -- the handlers that only read
  pub list_crawls_keeps :
      (ilike : String → String → Bool) (user : Uuid) (status q : Option String) (n from : ℕ)
      → Preserves P (list_crawls ilike user status q n from)
  unfolding list_crawls
  list_crawls_keeps ilike user status q n from = search preserves_rules

  pub get_crawl_keeps : (user id : Uuid) → Preserves P (get_crawl user id)
  unfolding get_crawl
  get_crawl_keeps user id = search (preserves_rules, owned_job_keeps P)

  pub get_crawl_logs_keeps :
      (user id : Uuid) (n from : ℕ) → Preserves P (get_crawl_logs user id n from)
  unfolding get_crawl_logs
  get_crawl_logs_keeps user id n from = search (preserves_rules, owned_job_keeps P)

  pub list_discovered_urls_keeps :
      (user id : Uuid) (n from : ℕ) → Preserves P (list_discovered_urls user id n from)
  unfolding list_discovered_urls
  list_discovered_urls_keeps user id n from = search (preserves_rules, owned_job_keeps P)

  pub list_data_keeps :
      (ilike : String → String → Bool) (user : Uuid) (job : Option Uuid) (format q : Option String)
      (n from : ℕ)
      → Preserves P (list_data ilike user job format q n from)
  unfolding list_data
  list_data_keeps ilike user job format q n from = search preserves_rules

  pub get_data_item_keeps : (user id : Uuid) → Preserves P (get_data_item user id)
  unfolding get_data_item owned_result
  get_data_item_keeps user id = search preserves_rules

  pub export_data_keeps :
      (ilike : String → String → Bool) (user : Uuid) (payload : DataExportRequest)
      → Preserves P (export_data ilike user payload)
  unfolding export_data
  export_data_keeps ilike user payload = search preserves_rules

  pub list_crawl_templates_keeps :
      (collates : String → String → Bool) (user : Uuid)
      → Preserves P (list_crawl_templates collates user)
  unfolding list_crawl_templates
  list_crawl_templates_keeps collates user = search preserves_rules

  pub get_crawl_template_keeps : (user id : Uuid) → Preserves P (get_crawl_template user id)
  unfolding get_crawl_template
  get_crawl_template_keeps user id = search preserves_rules

  pub get_overview_keeps : (user : Uuid) → Preserves P (get_overview user)
  unfolding get_overview
  get_overview_keeps user = search preserves_rules

  pub request_keeps :
      {Token : Type 0} (outside : Outside Token) (deps : AgentDeps Token) (draw : Draw)
      (handler : Uuid → Exec Backend Response)
      → ((user : Uuid) → Preserves P (handler user))
      → ToolKeeps P (request outside deps draw handler)
  unfolding request
  request_keeps outside deps draw handler h = record {
    holds = λ s k.
        (Preserves-bind _ _
            (get_current_user_keeps outside.config outside.jwt draw.now deps.auth_token)
            (λ user. h user.id)).holds
          s k;
  }

  pub ruleset reading_rules = (
    preserves_rules, request_keeps, query_keeps, list_crawls_keeps, get_crawl_keeps,
    get_crawl_logs_keeps, list_discovered_urls_keeps, list_data_keeps, get_data_item_keeps,
    export_data_keeps, list_crawl_templates_keeps, get_crawl_template_keeps, get_overview_keeps,
  )
