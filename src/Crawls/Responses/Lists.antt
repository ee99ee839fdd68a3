-- ===== src/Crawls/Responses/Lists.antt =====
-- When the two lists of rows of a job, in api/v1/crawler/router.py, fit their responses.
use onecrawler_backend.Prelude.{
  ℕ, ◌≡◌, refl, Bool, true, Option, none, some, List, [], ◌∷◌, All, All-take, All-drop, is_some,
  ◌==◌,
}
use onecrawler_backend.Tables.Order.{Page, paginate}
use onecrawler_backend.Tables.Order.Laws.{All-select, order_by_desc-All}
use onecrawler_backend.Exec.Preserves.{Preserves-raise_if}
use onecrawler_backend.Exec.Yields.{YieldsFrom, YieldsFrom-gets, YieldsFrom-after}
use onecrawler_backend.Models.{Uuid, DiscoveredUrl, LogLine}
use onecrawler_backend.Backend.{Backend}
use onecrawler_backend.Crawls.{owned_job}
use onecrawler_backend.Crawls.Reading.{limit_between, get_crawl_logs, list_discovered_urls}
use onecrawler_backend.Crawls.Writes.{owned_job_keeps}
use onecrawler_backend.Crawls.Responses.{
  log_line_out, discovered_url_out, log_list_out, discovered_list_out, send_items, with_items,
}

-- The rows that the list handlers read can be sent.
pub record CanSend (s : Backend) : Type 0 where
  pub lines : All (λ (l : LogLine). is_some (log_line_out l) ≡ true) s.log_lines
  pub urls : All (λ (d : DiscoveredUrl). is_some (discovered_url_out d) ≡ true) s.discovered_urls

is_some-some : {A : Type 0} (o : Option A) → is_some o ≡ true → (a : A) × (o ≡ some a)
is_some-some none h = cc
is_some-some (some a) h = (a, refl)

send_items-All :
    {A B : Type 0} (f : A → Option B) (xs : List A)
    → All (λ a. is_some (f a) ≡ true) xs
    → is_some (send_items f xs) ≡ true
unfolding send_items
send_items-All f [] h = refl
send_items-All f (a ∷ xs) h =
    let (b, e) = is_some-some (f a) h.0 in
    let (bs, k) = is_some-some (send_items f xs) (send_items-All f xs h.1) in rw (e, k) refl

with_items-is_some :
    {A B : Type 0} (page : Page A) (items : Option (List B))
    → is_some items ≡ true
    → is_some (with_items page items) ≡ true
with_items-is_some page none h = cc
with_items-is_some page (some items) h = refl

-- A page of rows that can each be sent can be sent.
page-send :
    {A B : Type 0} (f : A → Option B) (key : A → ℕ) (matches : A → Bool) (limit offset : ℕ)
    (rows : List A)
    → All (λ a. is_some (f a) ≡ true) rows
    → let page = paginate key matches limit offset rows in
      is_some (with_items page (send_items f page.items)) ≡ true
unfolding paginate
page-send f key matches limit offset rows h =
    with_items-is_some (paginate key matches limit offset rows) _ (
      send_items-All f _ (
        All-take _ limit _
          (All-drop _ offset _ (order_by_desc-All _ key _ (All-select _ matches rows h)))))

pub get_crawl_logs_sends :
    (user job : Uuid) (limit offset : ℕ)
    → YieldsFrom CanSend
        (λ page. is_some (log_list_out page) ≡ true)
        (get_crawl_logs user job limit offset)
unfolding get_crawl_logs log_list_out
get_crawl_logs_sends user job limit offset =
    YieldsFrom-after (limit_between 1 200 limit) _ (Preserves-raise_if _ 422 "") λ a.
      YieldsFrom-after (owned_job user job) _ (owned_job_keeps CanSend user job) λ found.
        YieldsFrom-gets _ λ s h.
          page-send log_line_out (λ (l : LogLine). l.timestamp) (λ l. l.job_id == job) limit offset
            s.log_lines h.lines

pub list_discovered_urls_sends :
    (user job : Uuid) (limit offset : ℕ)
    → YieldsFrom CanSend
        (λ page. is_some (discovered_list_out page) ≡ true)
        (list_discovered_urls user job limit offset)
unfolding list_discovered_urls discovered_list_out
list_discovered_urls_sends user job limit offset =
    YieldsFrom-after (limit_between 1 200 limit) _ (Preserves-raise_if _ 422 "") λ a.
      YieldsFrom-after (owned_job user job) _ (owned_job_keeps CanSend user job) λ found.
        YieldsFrom-gets _ λ s h.
          page-send discovered_url_out (λ (d : DiscoveredUrl). d.discovered_at)
            (λ d. d.job_id == job) limit offset s.discovered_urls h.urls
