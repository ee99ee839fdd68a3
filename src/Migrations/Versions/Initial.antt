-- ===== src/Migrations/Versions/Initial.antt =====
-- alembic/versions/0001_initial.py
use onecrawler_backend.Prelude.{List, [], ◌∷◌}
use onecrawler_backend.Migrations.Schema.{ColumnType, Cell}
use onecrawler_backend.Migrations.Operations.{ColumnDef, Op}
use onecrawler_backend.Migrations.Versions.{required, optional, defaulted, primary, references}

-- `sa.Column("job_id", …)`
abbrev job_id : ColumnDef
job_id = references "crawl_jobs" "id" (required "job_id" ColumnType.uuid)

unfoldable pub upgrade_0001 : List Op
upgrade_0001 =
    Op.create_table "crawl_jobs" (
      primary "id" ColumnType.uuid
      ∷ required "target_url" ColumnType.string
      ∷ required "mode" ColumnType.string
      ∷ defaulted "status" ColumnType.string (Cell.text "queued")
      ∷ required "settings" ColumnType.jsonb
      ∷ optional "filters" ColumnType.jsonb
      ∷ optional "error" ColumnType.text
      ∷ required "created_at" ColumnType.big_integer
      ∷ optional "started_at" ColumnType.big_integer
      ∷ optional "finished_at" ColumnType.big_integer
      ∷ defaulted "urls_discovered" ColumnType.integer (Cell.number 0)
      ∷ defaulted "urls_scraped" ColumnType.integer (Cell.number 0)
      ∷ defaulted "urls_failed" ColumnType.integer (Cell.number 0)
      ∷ defaulted "url_limit" ColumnType.integer (Cell.number 0)
      ∷ [])
    ∷ Op.create_table "discovered_urls" (
        primary "id" ColumnType.uuid
        ∷ job_id
        ∷ required "url" ColumnType.string
        ∷ required "discovered_at" ColumnType.big_integer
        ∷ defaulted "status" ColumnType.string (Cell.text "pending")
        ∷ [])
    ∷ Op.create_index "ix_discovered_urls_job_id" "discovered_urls" ("job_id" ∷ [])
    ∷ Op.create_table "crawl_result_items" (
        primary "id" ColumnType.uuid
        ∷ job_id
        ∷ required "url" ColumnType.string
        ∷ defaulted "title" ColumnType.string (Cell.text "")
        ∷ defaulted "word_count" ColumnType.integer (Cell.number 0)
        ∷ required "format" ColumnType.string
        ∷ required "extracted_at" ColumnType.big_integer
        ∷ defaulted "preview" ColumnType.text (Cell.text "")
        ∷ defaulted "content" ColumnType.text (Cell.text "")
        ∷ [])
    ∷ Op.create_index "ix_crawl_result_items_job_id" "crawl_result_items" ("job_id" ∷ [])
    ∷ Op.create_table "log_lines" (
        primary "id" ColumnType.uuid
        ∷ job_id
        ∷ required "timestamp" ColumnType.big_integer
        ∷ defaulted "level" ColumnType.string (Cell.text "info")
        ∷ required "message" ColumnType.text
        ∷ [])
    ∷ Op.create_index "ix_log_lines_job_id" "log_lines" ("job_id" ∷ [])
    ∷ []

unfoldable pub downgrade_0001 : List Op
downgrade_0001 =
    Op.drop_table "log_lines"
    ∷ Op.drop_table "crawl_result_items"
    ∷ Op.drop_table "discovered_urls"
    ∷ Op.drop_table "crawl_jobs"
    ∷ []
