-- ===== src/Data/Pages.antt =====
-- The list of api/v1/data/router.py against the results that it is made from.
use Prim.Native.Nat.{min}
use onecrawler_backend.Prelude.{
  ℕ, ◌-◌, ◌≡◌, ◌∙◌, refl, Bool, true, ◌&&◌, Option, String, List, [], ◌∷◌, leb, length, map,
  length-map, All, All-take, All-drop,
}
use onecrawler_backend.Tables.{count}
use onecrawler_backend.Tables.Order.{map_page, Page, paginate}
use onecrawler_backend.Tables.Order.Laws.{order_by_desc-All, All-select}
use onecrawler_backend.Exec.{ok}
use onecrawler_backend.Models.{Uuid}
use onecrawler_backend.Backend.{Backend}
use onecrawler_backend.Crawls.Paging.{paginate-page}
use onecrawler_backend.Data.{DataItemOut, data_of, data_item, row_time, matches_data, list_data}
use onecrawler_backend.Data.Access.{IsOwn, data_rows-IsOwn}

module _ {A B : Type 0} where
  All-map : (P : B → Type 0) (f : A → B) (xs : List A) → All (λ x. P (f x)) xs → All P (map f xs)
  All-map P f [] h = tt
  All-map P f (x ∷ xs) h = (h.0, All-map P f xs h.1)

-- A list of results with an admissible limit answers, without a write, with results of the user's
-- own jobs, each with its job's target URL, as many as the limit and the total allow; the total is
-- the number of the user's results that match.
pub list_data-page :
    (ilike : String → String → Bool) (user : Uuid) (job_id : Option Uuid) (format q : Option String)
    (limit offset : ℕ) (s : Backend)
    → (leb 1 limit && leb limit 200) ≡ true
    → (page : Page DataItemOut) × (list_data ilike user job_id format q limit offset s
        ≡ (ok page, s))
      × All (IsOwn user s.crawl_jobs) page.items
      × (page.total ≡ count (matches_data ilike job_id format q) (data_of user s))
      × (length page.items ≡ min limit (page.total - offset))
unfolding list_data paginate
list_data-page ilike user job_id format q limit offset s admissible =
    let matches = matches_data ilike job_id format q in
    let rows = data_of user s in
    let (order, matching, long) = paginate-page row_time matches rows limit offset in
    (
      map_page data_item (paginate row_time matches limit offset rows),
      rw admissible,
      All-map (IsOwn user s.crawl_jobs) data_item _ (
          All-take _ limit _ (
            All-drop _ offset _ (
              order_by_desc-All _ row_time _ (
                All-select _ matches rows
                  (data_rows-IsOwn user s.crawl_jobs s.crawl_result_items))))),
      refl,
      length-map data_item _ ∙ long,
    )
