-- ===== src/Migrations/Metadata.antt =====
-- db/models.py as the schema that it declares: `Base.metadata`.
use onecrawler_backend.Prelude.{List, [], ◌∷◌, String}
use onecrawler_backend.Migrations.Schema.{ColumnType}
use onecrawler_backend.Migrations.Operations.{ColumnDef}
use onecrawler_backend.Migrations.Versions.{
  required, optional, primary, unique, references, stamped,
}

-- A mapped class: its columns, its `UniqueConstraint`s and its columns with `index=True`. A
-- `default=` is the client's and has no place in the schema.
pub record Mapped : Type 0 where
  pub table_name : String
  pub columns : List ColumnDef
  pub uniques : List (List String)
  pub indexes : List (List String)

-- `mapped_column(ForeignKey("users.id", ondelete="CASCADE"), …)`, of the type of its target
abbrev user_id : ColumnDef
user_id = references "users" "id" (required "user_id" ColumnType.uuid)

abbrev owner_key : ColumnDef
owner_key = references "users" "id" (primary "user_id" ColumnType.uuid)

abbrev job_id : ColumnDef
job_id = references "crawl_jobs" "id" (required "job_id" ColumnType.uuid)

abbrev plain : String → List ColumnDef → Mapped
plain n ds = record { table_name = n; columns = ds; uniques = []; indexes = [] }

abbrev users : Mapped
users = plain "users" (
    primary "id" ColumnType.uuid
    ∷ required "name" ColumnType.string
    ∷ unique (required "email" ColumnType.string)
    ∷ required "hashed_password" ColumnType.string
    ∷ required "is_active" ColumnType.boolean
    ∷ required "user_type" ColumnType.string
    ∷ [])

abbrev refresh_sessions : Mapped
refresh_sessions = plain "refresh_sessions" (
    primary "jti" ColumnType.uuid
    ∷ user_id
    ∷ required "created_at" ColumnType.big_integer
    ∷ required "expires_at" ColumnType.big_integer
    ∷ optional "revoked_at" ColumnType.big_integer
    ∷ [])

abbrev crawl_jobs : Mapped
crawl_jobs = plain "crawl_jobs" (
    primary "id" ColumnType.uuid
    ∷ user_id
    ∷ required "target_url" ColumnType.string
    ∷ required "mode" ColumnType.string
    ∷ required "status" ColumnType.string
    ∷ required "settings" ColumnType.jsonb
    ∷ optional "filters" ColumnType.jsonb
    ∷ optional "seed_urls" ColumnType.jsonb
    ∷ optional "error" ColumnType.text
    ∷ required "created_at" ColumnType.big_integer
    ∷ optional "started_at" ColumnType.big_integer
    ∷ optional "finished_at" ColumnType.big_integer
    ∷ required "urls_discovered" ColumnType.integer
    ∷ required "urls_scraped" ColumnType.integer
    ∷ required "urls_failed" ColumnType.integer
    ∷ required "url_limit" ColumnType.integer
    ∷ [])

abbrev discovered_urls : Mapped
discovered_urls = plain "discovered_urls" (
    primary "id" ColumnType.uuid
    ∷ job_id
    ∷ required "url" ColumnType.string
    ∷ required "discovered_at" ColumnType.big_integer
    ∷ required "status" ColumnType.string
    ∷ [])

abbrev crawl_result_items : Mapped
crawl_result_items = plain "crawl_result_items" (
    primary "id" ColumnType.uuid
    ∷ job_id
    ∷ required "url" ColumnType.string
    ∷ required "title" ColumnType.string
    ∷ required "word_count" ColumnType.integer
    ∷ required "format" ColumnType.string
    ∷ required "extracted_at" ColumnType.big_integer
    ∷ required "preview" ColumnType.text
    ∷ required "content" ColumnType.jsonb
    ∷ [])

abbrev log_lines : Mapped
log_lines = plain "log_lines" (
    primary "id" ColumnType.uuid
    ∷ job_id
    ∷ required "timestamp" ColumnType.big_integer
    ∷ required "level" ColumnType.string
    ∷ required "message" ColumnType.text
    ∷ [])

abbrev crawl_settings_templates : Mapped
crawl_settings_templates = record {
  table_name = "crawl_settings_templates";
  columns =
      primary "id" ColumnType.uuid
      ∷ user_id
      ∷ required "name" ColumnType.string
      ∷ required "settings" ColumnType.jsonb
      ∷ optional "filters" ColumnType.jsonb
      ∷ required "created_at" ColumnType.big_integer
      ∷ required "updated_at" ColumnType.big_integer
      ∷ [];
  uniques = ("user_id" ∷ "name" ∷ []) ∷ [];
  indexes = [];
}

abbrev provider_api_keys : Mapped
provider_api_keys = plain "provider_api_keys" (
    owner_key
    ∷ primary "provider" ColumnType.string
    ∷ required "api_key" ColumnType.text
    ∷ required "updated_at" ColumnType.big_integer
    ∷ [])

abbrev agent_settings : Mapped
agent_settings = plain "agent_settings" (
    owner_key
    ∷ optional "llm_provider" ColumnType.string
    ∷ optional "llm_model" ColumnType.string
    ∷ optional "llm_api_key" ColumnType.string
    ∷ optional "llm_base_url" ColumnType.string
    ∷ optional "search_provider" ColumnType.string
    ∷ optional "search_api_key" ColumnType.string
    ∷ stamped "updated_at"
    ∷ [])

abbrev conversations : Mapped
conversations = record {
  table_name = "conversations";
  columns =
      primary "conversation_id" ColumnType.string
      ∷ user_id
      ∷ required "title" ColumnType.string
      ∷ stamped "created_at"
      ∷ stamped "updated_at"
      ∷ [];
  uniques = [];
  indexes = ("user_id" ∷ []) ∷ [];
}

abbrev chat_messages : Mapped
chat_messages = record {
  table_name = "chat_messages";
  columns =
      primary "id" ColumnType.integer
      ∷ references "conversations" "conversation_id" (required "conversation_id" ColumnType.string)
      ∷ required "role" ColumnType.string
      ∷ required "content" ColumnType.text
      ∷ stamped "created_at"
      ∷ [];
  uniques = [];
  indexes = ("conversation_id" ∷ []) ∷ [];
}

unfoldable pub metadata : List Mapped
metadata =
    users ∷ refresh_sessions ∷ crawl_jobs ∷ discovered_urls ∷ crawl_result_items ∷ log_lines
    ∷ crawl_settings_templates ∷ provider_api_keys ∷ agent_settings ∷ conversations ∷ chat_messages
    ∷ []
