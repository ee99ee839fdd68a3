-- ===== src/Data.antt =====
-- api/v1/data/router.py: the results of all the user's jobs.
pub mod Access
pub mod Pages
use onecrawler_backend.Prelude.{
  ℕ, String, Bool, true, false, not, ◌&&◌, ◌||◌, Option, none, some, List, [], ◌∷◌, map, ◌==◌, leb,
  if◌then◌else◌, str_eq, str_append, has_text, is_empty, length,
}
use onecrawler_backend.Tables.{find, select, count}
use onecrawler_backend.Tables.Order.{Page, map_page, paginate, order_by_desc}
use onecrawler_backend.Exec.{Exec, pure, gets, or_raise, raise_if, ◌>>=◌, ◌>>◌}
use onecrawler_backend.Models.{
  Uuid, CrawlJob, CrawlResultItem, ScrapingOutputFormat, Payload, format_text,
}
use onecrawler_backend.Backend.{Backend}
use onecrawler_backend.Crawls.{has_id}
use onecrawler_backend.Crawls.Reading.{given, limit_between}

-- a row of `select(CrawlResultItem, CrawlJob.target_url).join(CrawlJob, …)`
pub record DataRow : Type 0 where
  pub item : CrawlResultItem
  pub target_url : String

-- the row that the join and `CrawlJob.user_id == current_user.id` make of a result and its job
abbrev pub with_job : Uuid → CrawlResultItem → Option CrawlJob → Option DataRow
with_job user_id item none = none
with_job user_id item (some job) =
    if job.user_id == user_id
    then some (record { item = item; target_url = job.target_url })
    else none

abbrev pub if_row : Option DataRow → List DataRow → List DataRow
if_row none rows = rows
if_row (some row) rows = row ∷ rows

-- The id of a job is its primary key, so a result joins with one job at most.
unfoldable pub data_rows : Uuid → List CrawlJob → List CrawlResultItem → List DataRow
data_rows user_id jobs [] = []
data_rows user_id jobs (item ∷ items) =
    if_row (with_job user_id item (find (has_id item.job_id) jobs)) (data_rows user_id jobs items)

abbrev pub data_of : Uuid → Backend → List DataRow
data_of user_id s = data_rows user_id s.crawl_jobs s.crawl_result_items

-- `if job_id:` on an id
abbrev pub given_id : Option Uuid → (Uuid → Bool) → Bool
given_id none clause = true
given_id (some id) clause = clause id

-- the search clause, with the database's `ilike`
abbrev pub mentions : (String → String → Bool) → String → CrawlResultItem → Bool
mentions ilike q item =
    let like = str_append "%" (str_append q "%") in
    ilike item.title like || ilike item.url like || ilike item.preview like

unfoldable pub matches_data :
    (String → String → Bool) → Option Uuid → Option String → Option String → DataRow → Bool
matches_data ilike job_id format q row =
    given_id job_id (λ id. row.item.job_id == id)
    && given format (λ f. str_eq (format_text row.item.format) f)
    && given q (λ t. mentions ilike t row.item)

pub record DataItemOut : Type 0 where
  pub id : Uuid
  pub job_id : Uuid
  pub target_url : String
  pub url : String
  pub title : String
  pub word_count : ℕ
  pub format : ScrapingOutputFormat
  pub extracted_at : ℕ
  pub preview : String

-- `DataItemDetailOut(DataItemOut)`
pub record DataItemDetailOut : Type 0 where
  pub summary : DataItemOut
  pub content : Payload

abbrev pub data_item : DataRow → DataItemOut
data_item row = record {
  id = row.item.id;
  job_id = row.item.job_id;
  target_url = row.target_url;
  url = row.item.url;
  title = row.item.title;
  word_count = row.item.word_count;
  format = row.item.format;
  extracted_at = row.item.extracted_at;
  preview = row.item.preview;
}

abbrev pub data_item_detail : DataRow → DataItemDetailOut
data_item_detail row = record { summary = data_item row; content = row.item.content }

abbrev pub row_time : DataRow → ℕ
row_time row = row.item.extracted_at

unfoldable pub list_data :
    (String → String → Bool)
    → Uuid
    → Option Uuid
    → Option String
    → Option String
    → ℕ
    → ℕ
    → Exec Backend (Page DataItemOut)
unfolding limit_between matches_data ◌>>=◌
list_data ilike user_id job_id format q limit offset = do
  limit_between 1 200 limit
  gets (λ s.
      map_page data_item
        (paginate row_time (matches_data ilike job_id format q) limit offset (data_of user_id s)))

pub data ExportArchiveFormat : Type 0 where
  zip ndjson : ExportArchiveFormat

pub record DataExportRequest : Type 0 where
  pub ids : Option (List Uuid)
  pub job_id : Option Uuid
  pub format : Option String
  pub q : Option String
  pub archive_format : ExportArchiveFormat

-- Python's truth value of an optional list and id
abbrev pub has_items : Option (List Uuid) → Bool
has_items none = false
has_items (some ids) = not (is_empty ids)

abbrev pub has_value : Option Uuid → Bool
has_value none = false
has_value (some id) = true

abbrev pub has_filters : DataExportRequest → Bool
has_filters payload = has_value payload.job_id || has_text payload.format || has_text payload.q

-- `max_length=500`
abbrev pub is_short : Option (List Uuid) → Bool
is_short none = true
is_short (some ids) = leb (length ids) 500

-- What pydantic makes sure of before the handler runs: one mode of selection, and no more ids than
-- a request may name.
unfoldable pub one_selection_mode : DataExportRequest → Bool
one_selection_mode payload =
    is_short payload.ids
    && (if has_items payload.ids then not (has_filters payload) else has_filters payload)

abbrev pub is_among : List Uuid → Uuid → Bool
is_among [] id = false
is_among (i ∷ ids) id = i == id || is_among ids id

abbrev pub ids_of : Option (List Uuid) → List Uuid
ids_of none = []
ids_of (some ids) = ids

unfoldable pub matches_export : (String → String → Bool) → DataExportRequest → DataRow → Bool
unfolding matches_data
matches_export ilike payload row =
    if has_items payload.ids
    then is_among (ids_of payload.ids) row.item.id
    else matches_data ilike payload.job_id payload.format payload.q row

-- The file that is sent: a line for each item, or a member `{id}.json` for each.
pub data ExportFile : Type 0 where
  lines : List DataItemDetailOut → ExportFile
  members : List (Uuid × DataItemDetailOut) → ExportFile

abbrev pub member : DataItemDetailOut → Uuid × DataItemDetailOut
member item = (item.summary.id, item)

abbrev pub archive : ExportArchiveFormat → List DataItemDetailOut → ExportFile
archive ExportArchiveFormat.ndjson items = ExportFile.lines items
archive ExportArchiveFormat.zip items = ExportFile.members (map member items)

unfoldable pub export_data :
    (String → String → Bool) → Uuid → DataExportRequest → Exec Backend ExportFile
unfolding one_selection_mode matches_export ◌>>=◌
export_data ilike user_id payload = do
  raise_if (not (one_selection_mode payload)) 422 ""
  results ←
      gets (λ s. order_by_desc row_time (select (matches_export ilike payload) (data_of user_id s)))
  raise_if (is_empty results) 404 "No matching results found"
  pure (archive payload.archive_format (map data_item_detail results))

abbrev pub is_result : Uuid → DataRow → Bool
is_result result_id row = row.item.id == result_id

-- The select and the 404 of the two handlers of one result.
unfoldable pub owned_result : Uuid → Uuid → Exec Backend DataRow
unfolding data_rows ◌>>=◌
owned_result user_id result_id = do
  or_raise (← gets (λ s. find (is_result result_id) (data_of user_id s))) 404 "Result not found"

unfoldable pub get_data_item : Uuid → Uuid → Exec Backend DataItemDetailOut
unfolding owned_result
get_data_item user_id result_id = do
  found ← owned_result user_id result_id
  pure (data_item_detail found)

-- the content that is sent, and the id in the name of the file
unfoldable pub download_data_item : Uuid → Uuid → Exec Backend (Payload × Uuid)
unfolding owned_result
download_data_item user_id result_id = do
  found ← owned_result user_id result_id
  pure (found.item.content, found.item.id)
