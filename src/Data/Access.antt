-- ===== src/Data/Access.antt =====
-- Which results the handlers of api/v1/data/router.py show to whom.
use onecrawler_backend.Prelude.{
  ◌≤◌, ◌≡◌, ◌∙◌, refl, ap, inl, inr, Bool, true, false, Option, none, some, List, [], ◌∷◌, ◌==◌,
  Bool-cases, if◌then◌else◌, arith, All,
}
use onecrawler_backend.Tables.{find, count}
use onecrawler_backend.Exec.{ok, err}
use onecrawler_backend.Models.{Uuid, CrawlJob, CrawlResultItem}
use onecrawler_backend.Backend.{Backend}
use onecrawler_backend.Crawls.{has_id}
use onecrawler_backend.Data.{
  DataRow, DataItemOut, with_job, if_row, data_rows, data_of, data_item, data_item_detail,
  is_result, get_data_item, download_data_item,
}

abbrev pub item_has : Uuid → CrawlResultItem → Bool
item_has id item = item.id == id

module _ (user : Uuid) (jobs : List CrawlJob) where
  -- a result's row, where there is a result
  abbrev with_job_of : Option CrawlResultItem → Option DataRow
  with_job_of none = none
  with_job_of (some item) = with_job user item (find (has_id item.job_id) jobs)

module _ (user id : Uuid) (jobs : List CrawlJob) where
  -- A result with another id, and the result with the id when no later row has it.
  if_row-other :
      (x : CrawlResultItem) (rows : List DataRow) (job : Option CrawlJob)
      → (x.id == id) ≡ false
      → find (is_result id) (if_row (with_job user x job) rows) ≡ find (is_result id) rows
  if_row-other x rows none e = refl
  if_row-other x rows (some job) e = ground (arith, e)

  if_row-here :
      (x : CrawlResultItem) (rows : List DataRow) (job : Option CrawlJob)
      → (x.id == id) ≡ true
      → find (is_result id) rows ≡ none
      → find (is_result id) (if_row (with_job user x job) rows) ≡ with_job user x job
  if_row-here x rows none e n = n
  if_row-here x rows (some job) e n = ground (arith, e, n)

  -- A result that no row of the table has is in no row of the join.
  data_rows-absent :
      (items : List CrawlResultItem)
      → count (item_has id) items ≡ 0
      → find (is_result id) (data_rows user jobs items) ≡ none
  unfolding data_rows
  data_rows-absent [] e = refl
  data_rows-absent (item ∷ items) e =
      let other : (item.id == id) ≡ false = ground (arith, e) in
      let rest : count (item_has id) items ≡ 0 = ground (arith, e) in
      if_row-other item (data_rows user jobs items) (find (has_id item.job_id) jobs) other
      ∙ data_rows-absent items rest

  -- The one row with an id is found in the join as its own job lets it.
  data_rows-find :
      (items : List CrawlResultItem) (item : CrawlResultItem)
      → find (item_has id) items ≡ some item
      → count (item_has id) items ≤ 1
      → find (is_result id) (data_rows user jobs items)
        ≡ with_job user item (find (has_id item.job_id) jobs)
  unfolding data_rows
  data_rows-find [] item f l = cc
  data_rows-find (x ∷ items) item f l = elim (Bool-cases (x.id == id)) [
    | inr other ↦
        let found : find (item_has id) items ≡ some item = ground (arith, other, f) in
        if_row-other x (data_rows user jobs items) (find (has_id x.job_id) jobs) other
        ∙ data_rows-find items item found (ground (arith, other, l))
    | inl here ↦
        let rest : count (item_has id) items ≡ 0 = ground (arith, here, l) in
        let same : some x ≡ some item = ground (arith, here, f) in
        if_row-here x (data_rows user jobs items) (find (has_id x.job_id) jobs) here
          (data_rows-absent items rest)
        ∙ ap (λ (o : Option CrawlResultItem). with_job_of user jobs o) same
  ]

-- A result is shown, and can be downloaded, to the user who owns its job, with the job's target
-- URL; every other user is told that there is no such result. The id of the result and the id of
-- its job are each in one row only.
pub data_item-access :
    (user id : Uuid) (s : Backend) (item : CrawlResultItem) (job : CrawlJob)
    → find (item_has id) s.crawl_result_items ≡ some item
    → count (item_has id) s.crawl_result_items ≤ 1
    → find (has_id item.job_id) s.crawl_jobs ≡ some job
    → (get_data_item user id s ≡ (
        if job.user_id == user
        then (ok (data_item_detail (record { item = item; target_url = job.target_url })), s)
        else (err 404 "Result not found", s)))
      × (download_data_item user id s ≡ (
          if job.user_id == user
          then (ok (item.content, item.id), s)
          else (err 404 "Result not found", s)))
unfolding get_data_item download_data_item
data_item-access user id s item job found once owner =
    let row : find (is_result id) (data_of user s) ≡ with_job user item (some job) =
      data_rows-find user id s.crawl_jobs s.crawl_result_items item found once
      ∙ ap (with_job user item) owner in
    elim (Bool-cases (job.user_id == user)) [
      | inl mine ↦ rw (row, mine) (refl, refl)
      | inr other ↦ rw (row, other) (refl, refl)
    ]

-- The row is one of the user's own results.
abbrev pub IsOwn : Uuid → List CrawlJob → DataItemOut → Type 0
IsOwn user jobs out =
    (job : CrawlJob) × (find (has_id out.job_id) jobs ≡ some job)
    × ((job.user_id == user) ≡ true)
    × (out.target_url ≡ job.target_url)

if_row-IsOwn :
    (user : Uuid) (jobs : List CrawlJob) (item : CrawlResultItem) (rows : List DataRow)
    (job : Option CrawlJob)
    → find (has_id item.job_id) jobs ≡ job
    → All (λ r. IsOwn user jobs (data_item r)) rows
    → All (λ r. IsOwn user jobs (data_item r)) (if_row (with_job user item job) rows)
if_row-IsOwn user jobs item rows none e h = h
if_row-IsOwn user jobs item rows (some job) e h = elim (Bool-cases (job.user_id == user)) [
  | inl mine ↦ rw mine ((job, e, mine, refl), h)
  | inr other ↦ rw other h
]

pub data_rows-IsOwn :
    (user : Uuid) (jobs : List CrawlJob) (items : List CrawlResultItem)
    → All (λ r. IsOwn user jobs (data_item r)) (data_rows user jobs items)
unfolding data_rows
data_rows-IsOwn user jobs [] = tt
data_rows-IsOwn user jobs (item ∷ items) =
    if_row-IsOwn user jobs item (data_rows user jobs items) (find (has_id item.job_id) jobs) refl
      (data_rows-IsOwn user jobs items)
