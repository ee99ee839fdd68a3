-- ===== src/Agent/Tools/Routed.antt =====
-- Which handler answers a request of the assistant's tools.
use Prim.Native.Char.{Char, code}
use onecrawler_backend.Prelude.{
  ◌∙◌, ap, Bool, true, not, ◌&&◌, ◌||◌, ◌==◌, leb, arith, ◌≡◌, refl, false, some, String, List, [],
  ◌∷◌, All, is_blank,
}
use onecrawler_backend.Agent.Tools.Routing.{
  Method, path, api_router, resolve, ClientCall, create_crawl, list_crawls, get_dashboard_overview,
  list_data, export_data, list_crawl_templates, get_crawl, delete_crawl, cancel_crawl, retry_crawl,
  get_crawl_logs, list_discovered_urls, scrape_discovered_urls, get_data_item, get_crawl_template,
  endpoint,
}

-- Letters, digits and dashes: what a UUID is written with, and a path of the API.
abbrev pub is_plain_char : Char → Bool
is_plain_char c =
    let n = code c in
    (leb 48 n && leb n 57) || (leb 65 n && leb n 90) || (leb 97 n && leb n 122) || n == 45

abbrev pub all_plain : String → Bool
all_plain String.[] = true
all_plain (String.◌∷◌ c s) = is_plain_char c && all_plain s

-- a text that stands in a path for itself, as every UUID does
abbrev pub is_plain : String → Bool
is_plain s = not (is_blank s) && all_plain s

abbrev pub IsPlain : String → Type 0
IsPlain s = is_plain s ≡ true

-- What the router makes of the text of a path: the segments of a path that is made of plain ones.
abbrev pub ReadsPlain : (String → List String) → Type 0
ReadsPlain split =
    (s : String) (ss : List String) → IsPlain s → All IsPlain ss → split (path (s ∷ ss)) ≡ s ∷ ss

plain_named : (s : String) → IsPlain s → is_blank s ≡ false
plain_named s h = ground (arith, h)

abbrev pub call_ids : ClientCall → List String
call_ids (get_crawl id) = id ∷ []
call_ids (delete_crawl id) = id ∷ []
call_ids (cancel_crawl id) = id ∷ []
call_ids (retry_crawl id) = id ∷ []
call_ids (get_crawl_logs id) = id ∷ []
call_ids (list_discovered_urls id) = id ∷ []
call_ids (scrape_discovered_urls id) = id ∷ []
call_ids (get_data_item id) = id ∷ []
call_ids (get_crawl_template id) = id ∷ []
call_ids _ = []

-- the handler that a method of the client is for
abbrev pub meant_for : ClientCall → String
meant_for create_crawl = "create_crawl"
meant_for list_crawls = "list_crawls"
meant_for get_dashboard_overview = "get_overview"
meant_for list_data = "list_data"
meant_for export_data = "export_data"
meant_for list_crawl_templates = "list_crawl_templates"
meant_for (get_crawl id) = "get_crawl"
meant_for (delete_crawl id) = "delete_crawl"
meant_for (cancel_crawl id) = "cancel_crawl"
meant_for (retry_crawl id) = "retry_crawl"
meant_for (get_crawl_logs id) = "get_crawl_logs"
meant_for (list_discovered_urls id) = "list_discovered_urls"
meant_for (scrape_discovered_urls id) = "scrape_discovered_urls"
meant_for (get_data_item id) = "get_data_item"
meant_for (get_crawl_template id) = "get_crawl_template"

-- `split` is what httpx, the server and the router make of the text of a path.
module _ (split : String → List String) (reads : ReadsPlain split) where
  arrives :
      (m : Method) (s : String) (ss : List String)
      → IsPlain s
      → All IsPlain ss
      → resolve api_router m (split (path (s ∷ ss))) ≡ resolve api_router m (s ∷ ss)
  arrives m s ss h hs = ap (resolve api_router m) (reads s ss h hs)

  -- If a path of segments of letters, digits and dashes reaches the router as these segments, each
  -- request of the client whose id is such a segment, as every UUID is, is answered by the handler
  -- that it is for, the first of the API's routes that fits its method and path.
  pub resolve-endpoint :
      (c : ClientCall)
      → All IsPlain (call_ids c)
      → resolve api_router (endpoint c).0 (split (endpoint c).1) ≡ some (meant_for c)
  unfolding resolve api_router endpoint
  resolve-endpoint create_crawl h = arrives Method.post "crawls" [] refl tt
  resolve-endpoint list_crawls h = arrives Method.get "crawls" [] refl tt
  resolve-endpoint get_dashboard_overview h =
      arrives Method.get "dashboard" ("overview" ∷ []) refl (refl, tt)
  resolve-endpoint list_data h = arrives Method.get "data" [] refl tt
  resolve-endpoint export_data h = arrives Method.post "data" ("export" ∷ []) refl (refl, tt)
  resolve-endpoint list_crawl_templates h =
      arrives Method.get "settings" ("templates" ∷ []) refl (refl, tt)
  resolve-endpoint (get_crawl id) h =
      arrives Method.get "crawls" (id ∷ []) refl h ∙ rw (plain_named id h.0) refl
  resolve-endpoint (delete_crawl id) h =
      arrives Method.delete "crawls" (id ∷ []) refl h ∙ rw (plain_named id h.0) refl
  resolve-endpoint (cancel_crawl id) h =
      arrives Method.post "crawls" (id ∷ "cancel" ∷ []) refl (h.0, (refl, tt))
      ∙ rw (plain_named id h.0) refl
  resolve-endpoint (retry_crawl id) h =
      arrives Method.post "crawls" (id ∷ "retry" ∷ []) refl (h.0, (refl, tt))
      ∙ rw (plain_named id h.0) refl
  resolve-endpoint (get_crawl_logs id) h =
      arrives Method.get "crawls" (id ∷ "logs" ∷ []) refl (h.0, (refl, tt))
      ∙ rw (plain_named id h.0) refl
  resolve-endpoint (list_discovered_urls id) h =
      arrives Method.get "crawls" (id ∷ "discovered" ∷ []) refl (h.0, (refl, tt))
      ∙ rw (plain_named id h.0) refl
  resolve-endpoint (scrape_discovered_urls id) h =
      arrives Method.post "crawls" (id ∷ "scrape" ∷ []) refl (h.0, (refl, tt))
      ∙ rw (plain_named id h.0) refl
  resolve-endpoint (get_data_item id) h =
      arrives Method.get "data" (id ∷ []) refl h ∙ rw (plain_named id h.0) refl
  resolve-endpoint (get_crawl_template id) h =
      arrives Method.get "settings" ("templates" ∷ id ∷ []) refl (refl, h)
      ∙ rw (plain_named id h.0) refl

-- Another text for an id can lead elsewhere: where the path `/crawls/../settings/agent` reaches the
-- router as `/settings/agent`, a deletion of the crawl `../settings/agent` is answered by the
-- handler that clears the user's agent settings.
delete_crawl_misled :
    (split : String → List String)
    → split (endpoint (delete_crawl "../settings/agent")).1 ≡ "settings" ∷ "agent" ∷ []
    → resolve api_router
        (endpoint (delete_crawl "../settings/agent")).0
        (split (endpoint (delete_crawl "../settings/agent")).1)
      ≡ some "clear_agent_settings"
unfolding resolve api_router endpoint
delete_crawl_misled split h = rw h refl
