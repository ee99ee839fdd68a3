-- ===== src/Agent/Tools/Routing.antt =====
-- The requests of `OneCrawlerClient` in agent/core/client.py and the routes of api/v1 that answer
-- them. What becomes of the text of a path on its way, which httpx normalises and the server decodes
-- before it is matched segment by segment, is a parameter of Agent/Tools/Routed. The routes are
-- tried in the order in which they are registered.
use onecrawler_backend.Prelude.{
  Bool, true, false, not, ◌&&◌, if◌then◌else◌, str_append, Option, none, some, String, List, [],
  ◌∷◌, ◌++◌, str_eq, is_blank,
}

pub data Method : Type 0 where
  get : Method
  post : Method
  put : Method
  delete : Method

pub data Segment : Type 0 where
  literal : String → Segment
  -- `{name}`
  param : Segment

-- a route with the name of its handler
pub record Route : Type 0 where
  pub method : Method
  pub path : List Segment
  pub handler : String

abbrev route : Method → List Segment → String → Route
route m p h = record { method = m; path = p; handler = h }

abbrev fixed : String → List Segment → List Segment
fixed s p = Segment.literal s ∷ p

abbrev given : List Segment → List Segment
given p = Segment.param ∷ p

abbrev agent_routes : List Route
agent_routes =
    route Method.get (fixed "chats" []) "list_chats"
    ∷ route Method.get (fixed "chats" (given [])) "get_chat"
    ∷ route Method.post (fixed "chat" []) "chat"
    ∷ route Method.post (fixed "chat" (fixed "stream" [])) "chat_stream"
    ∷ route Method.put (fixed "settings" (fixed "agent" [])) "set_agent_settings"
    ∷ route Method.get (fixed "settings" (fixed "agent" [])) "get_agent_settings"
    ∷ route Method.delete (fixed "settings" (fixed "agent" [])) "clear_agent_settings"
    ∷ []

abbrev crawl_routes : List Route
crawl_routes =
    route Method.post (fixed "crawls" []) "create_crawl"
    ∷ route Method.get (fixed "crawls" []) "list_crawls"
    ∷ route Method.get (fixed "crawls" (given [])) "get_crawl"
    ∷ route Method.get (fixed "crawls" (given (fixed "download" []))) "download_crawl_results"
    ∷ route Method.get (fixed "crawls" (given (fixed "logs" []))) "get_crawl_logs"
    ∷ route Method.get (fixed "crawls" (given (fixed "discovered" []))) "list_discovered_urls"
    ∷ route Method.delete (fixed "crawls" (given (fixed "discovered" (given []))))
        "delete_discovered_url"
    ∷ route Method.post (fixed "crawls" (given (fixed "scrape" []))) "scrape_discovered_urls"
    ∷ route Method.post (fixed "crawls" (given (fixed "cancel" []))) "cancel_crawl"
    ∷ route Method.post (fixed "crawls" (given (fixed "retry" []))) "retry_crawl"
    ∷ route Method.delete (fixed "crawls" (given [])) "delete_crawl"
    ∷ []

abbrev data_routes : List Route
data_routes =
    route Method.get (fixed "data" []) "list_data"
    ∷ route Method.post (fixed "data" (fixed "export" [])) "export_data"
    ∷ route Method.get (fixed "data" (given [])) "get_data_item"
    ∷ route Method.get (fixed "data" (given (fixed "download" []))) "download_data_item"
    ∷ []

abbrev settings_routes : List Route
settings_routes =
    route Method.post (fixed "settings" (fixed "templates" [])) "create_crawl_template"
    ∷ route Method.get (fixed "settings" (fixed "templates" [])) "list_crawl_templates"
    ∷ route Method.get (fixed "settings" (fixed "templates" (given []))) "get_crawl_template"
    ∷ route Method.put (fixed "settings" (fixed "templates" (given []))) "update_crawl_template"
    ∷ route Method.delete (fixed "settings" (fixed "templates" (given []))) "delete_crawl_template"
    ∷ route Method.get (fixed "settings" (fixed "api-keys" [])) "list_provider_api_keys"
    ∷ route Method.put (fixed "settings" (fixed "api-keys" (given []))) "set_provider_api_key"
    ∷ route Method.delete (fixed "settings" (fixed "api-keys" (given []))) "clear_provider_api_key"
    ∷ []

unfoldable pub api_router : List Route
api_router =
    agent_routes
    ++ crawl_routes
    ++ (route Method.get (fixed "dashboard" (fixed "overview" [])) "get_overview" ∷ [])
    ++ data_routes
    ++ settings_routes

abbrev same_method : Method → Method → Bool
same_method Method.get Method.get = true
same_method Method.post Method.post = true
same_method Method.put Method.put = true
same_method Method.delete Method.delete = true
same_method _ _ = false

-- A parameter takes one segment that is not empty.
abbrev fits : List Segment → List String → Bool
fits [] [] = true
fits (Segment.literal n ∷ p) (s ∷ ss) = str_eq n s && fits p ss
fits (Segment.param ∷ p) (s ∷ ss) = not (is_blank s) && fits p ss
fits _ _ = false

unfoldable pub resolve : List Route → Method → List String → Option String
resolve [] m path = none
resolve (r ∷ rs) m path =
    let rest = resolve rs m path in
    if same_method r.method m && fits r.path path then some r.handler else rest

-- the text of a path: each segment after a slash
unfoldable pub path : List String → String
path [] = ""
path (s ∷ ss) = str_append "/" (str_append s (path ss))

-- a call of a method of the client, with its id
pub data ClientCall : Type 0 where
  create_crawl list_crawls get_dashboard_overview list_data : ClientCall
  export_data list_crawl_templates : ClientCall
  get_crawl delete_crawl cancel_crawl retry_crawl get_crawl_logs : String → ClientCall
  list_discovered_urls scrape_discovered_urls get_data_item : String → ClientCall
  get_crawl_template : String → ClientCall

-- The method and the path that each sends: the id stands in the text of the path as it is.
unfoldable pub endpoint : ClientCall → Method × String
endpoint create_crawl = (Method.post, path ("crawls" ∷ []))
endpoint list_crawls = (Method.get, path ("crawls" ∷ []))
endpoint (get_crawl id) = (Method.get, path ("crawls" ∷ id ∷ []))
endpoint (delete_crawl id) = (Method.delete, path ("crawls" ∷ id ∷ []))
endpoint (cancel_crawl id) = (Method.post, path ("crawls" ∷ id ∷ "cancel" ∷ []))
endpoint (retry_crawl id) = (Method.post, path ("crawls" ∷ id ∷ "retry" ∷ []))
endpoint (get_crawl_logs id) = (Method.get, path ("crawls" ∷ id ∷ "logs" ∷ []))
endpoint (list_discovered_urls id) = (Method.get, path ("crawls" ∷ id ∷ "discovered" ∷ []))
endpoint (scrape_discovered_urls id) = (Method.post, path ("crawls" ∷ id ∷ "scrape" ∷ []))
endpoint get_dashboard_overview = (Method.get, path ("dashboard" ∷ "overview" ∷ []))
endpoint list_data = (Method.get, path ("data" ∷ []))
endpoint (get_data_item id) = (Method.get, path ("data" ∷ id ∷ []))
endpoint export_data = (Method.post, path ("data" ∷ "export" ∷ []))
endpoint list_crawl_templates = (Method.get, path ("settings" ∷ "templates" ∷ []))
endpoint (get_crawl_template id) = (Method.get, path ("settings" ∷ "templates" ∷ id ∷ []))
