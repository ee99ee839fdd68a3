-- ===== src/Agent/Tools.antt =====
-- agent/core/client.py and the dependencies of agent/tools.py: each tool is a request to the API
-- with the user's token, and its result is what the handler of that request returns. The id of a
-- row is a number, as in the handlers: the calls are those whose ids are UUIDs. A request always reaches the API, which answers in time.
pub mod Crawling
pub mod Reading
pub mod Toolbox
pub mod Reads
pub mod Kept
pub mod Exports
pub mod Routing
pub mod Routed
use onecrawler_backend.Prelude.{ℕ, ℤ, pos, negsuc, String, Bool, Option, none, some, List, [], ◌∷◌}
use onecrawler_backend.Tables.Order.{Page}
use onecrawler_backend.Exec.{Exec, Result, ok, err, pure, raise, ◌>>=◌}
use onecrawler_backend.Models.{Uuid, CrawlJob, LogLine, DiscoveredUrl, CrawlSettingsTemplate}
use onecrawler_backend.Backend.{Backend}
use onecrawler_backend.Auth.{Config, Jwt, get_current_user}
use onecrawler_backend.Crawls.Detail.{CrawlJobDetail}
use onecrawler_backend.Crawls.Bodies.{Url}
use onecrawler_backend.Configuration.Dashboard.{DashboardOverviewOut}
use onecrawler_backend.Data.{DataItemOut, DataItemDetailOut, ExportFile, lines, members}

-- one of the results of the search service, as it sends it
pub record SearchResult : Type 0 where
  pub title : Option String
  pub url : Option String
  pub content : Option String

pub record SearchHit : Type 0 where
  pub title : Option String
  pub url : Option String
  pub snippet : Option String

-- the JSON that a tool returns
pub data Reply : Type 0 where
  nothing : Reply
  a_job : CrawlJob → Reply
  jobs : Page CrawlJob → Reply
  detail : CrawlJobDetail → Reply
  logs : Page LogLine → Reply
  discovered : Page DiscoveredUrl → Reply
  overview : DashboardOverviewOut → Reply
  data_page : Page DataItemOut → Reply
  item : DataItemDetailOut → Reply
  templates : List CrawlSettingsTemplate × ℕ → Reply
  template : CrawlSettingsTemplate → Reply
  hits : List SearchHit → Reply

-- what a tool raises
pub data ToolError : Type 0 where
  -- `raise_for_status`
  http_status : ℕ → ToolError
  -- `response.json()` on a body that is not JSON
  not_json : ToolError
  -- the `RuntimeError` of `web_search`
  no_search_key : ToolError
  -- the search service could not be asked
  search_failed : ToolError

pub data ToolResult : Type 0 where
  returned : Reply → ToolResult
  raised : ToolError → ToolResult

-- what the API and the tools use of others: PyJWT, the database's `ilike` and collation, `urlparse`,
-- `strptime` and the search service, given the key, the query and the number of results
pub record Outside (Token : Type 0) : Type 0 where
  pub config : Config
  pub jwt : Jwt Token
  pub ilike : String → String → Bool
  pub collates : String → String → Bool
  pub urlparse : String → Option Url
  pub strptime : String → Bool
  pub search : String → String → ℤ → Option (List SearchResult)

-- The queue `events` stands with the toolbox.
pub record AgentDeps (Token : Type 0) : Type 0 where
  pub auth_token : Token
  pub search_api_key : Option String

-- the time at which the API serves a request, and the id that its handler draws
pub record Draw : Type 0 where
  pub now : ℕ
  pub new_id : Uuid

-- the body of a response
pub data Response : Type 0 where
  no_content : Response
  json : Reply → Response
  file : ExportFile → Response

abbrev pub Tool : Type 0
Tool = Backend → ToolResult × Backend

-- `response.json()`: a file of lines is JSON if it has one line.
abbrev pub read_file : ExportFile → ToolResult
read_file (ExportFile.lines (line ∷ [])) = returned (item line)
read_file (ExportFile.lines _) = raised not_json
read_file (ExportFile.members _) = raised not_json

abbrev pub receive : Result Response → ToolResult
receive (err code text) = raised (http_status code)
receive (ok no_content) = returned nothing
receive (ok (json reply)) = returned reply
receive (ok (file f)) = read_file f

-- a parameter of the query, or its default; FastAPI refuses a negative number
abbrev pub query : Option ℤ → ℕ → Exec Backend ℕ
query none default = pure default
query (some (pos n)) default = pure n
query (some (negsuc n)) default = raise 422 ""

abbrev pub sends : {A : Type 0} → (A → Reply) → Exec Backend A → Exec Backend Response
sends f m = do a ← m; pure (json (f a))

module _ {Token : Type 0} (outside : Outside Token) (deps : AgentDeps Token) (draw : Draw) where
  -- `OneCrawlerClient.request`, with the handler that the method and the path lead to: the one that
  -- Agent/Tools/Routing resolves them to when the id in the path is a UUID. With another text for an
  -- id the path can lead to another handler, or to one without a user; no such call is modelled.
  unfoldable pub request : (Uuid → Exec Backend Response) → Tool
  unfolding get_current_user
  request handler s =
      let answered =
        (get_current_user outside.config outside.jwt draw.now deps.auth_token >>= λ user.
        handler user.id)
          s in
      (receive answered.0, answered.1)
