-- ===== src/Migrations/Versions/Assistant.antt =====
-- alembic/versions/0010_add_agent_tables.py and 0011_agent_llm_base_url.py
use onecrawler_backend.Prelude.{Bool, true, false, Option, none, some, List, [], ◌∷◌, ◌++◌, String}
use onecrawler_backend.Migrations.Schema.{ColumnType, Cell, mem}
use onecrawler_backend.Migrations.Operations.{ColumnDef, Op}
use onecrawler_backend.Migrations.Versions.{
  Casts, required, optional, stamped, primary, references, add_column,
}

abbrev owned : ColumnDef → ColumnDef
owned = references "users" "id"

abbrev uuid_or_none : Option String → Option Cell
uuid_or_none none = none
uuid_or_none (some u) = some (Cell.text u)

module _ (casts : Casts) where
  -- `user_id::uuid`
  abbrev convert_user_id : Cell → Option Cell
  convert_user_id (Cell.text s) = uuid_or_none (casts.to_uuid s)
  convert_user_id Cell.null = some Cell.null
  convert_user_id _ = none

  -- the `else` branch for a table that an earlier service has made: `user_id` becomes a UUID that
  -- points to `users`
  abbrev adopt : String → String → List Op
  adopt t fkey =
      Op.alter_type t "user_id" ColumnType.uuid convert_user_id
      ∷ Op.create_foreign_key fkey t "users" ("user_id" ∷ []) ("id" ∷ [])
      ∷ []

  abbrev pub agent_settings : Bool → List Op
  agent_settings false =
      Op.create_table "agent_settings" (
        owned (primary "user_id" ColumnType.uuid)
        ∷ optional "llm_provider" ColumnType.string
        ∷ optional "llm_model" ColumnType.string
        ∷ optional "llm_api_key" ColumnType.string
        ∷ optional "search_provider" ColumnType.string
        ∷ optional "search_api_key" ColumnType.string
        ∷ stamped "updated_at"
        ∷ [])
      ∷ []
  agent_settings true = adopt "agent_settings" "agent_settings_user_id_fkey"

  abbrev pub conversations : Bool → List Op
  conversations false =
      Op.create_table "conversations" (
        primary "conversation_id" ColumnType.string
        ∷ owned (required "user_id" ColumnType.uuid)
        ∷ required "title" ColumnType.string
        ∷ stamped "created_at"
        ∷ stamped "updated_at"
        ∷ [])
      ∷ Op.create_index "ix_conversations_user_id" "conversations" ("user_id" ∷ [])
      ∷ []
  conversations true = adopt "conversations" "conversations_user_id_fkey"

  abbrev pub chat_messages : Bool → List Op
  chat_messages false =
      Op.create_table "chat_messages" (
        primary "id" ColumnType.integer
        ∷ references "conversations" "conversation_id"
            (required "conversation_id" ColumnType.string)
        ∷ required "role" ColumnType.string
        ∷ required "content" ColumnType.text
        ∷ stamped "created_at"
        ∷ [])
      ∷ Op.create_index "ix_chat_messages_conversation_id" "chat_messages" ("conversation_id" ∷ [])
      ∷ []
  chat_messages true = []

  -- The names of the tables are read once, before anything is changed.
  unfoldable pub upgrade_0010 : List String → List Op
  upgrade_0010 existing_tables =
      agent_settings (mem "agent_settings" existing_tables)
      ++ conversations (mem "conversations" existing_tables)
      ++ chat_messages (mem "chat_messages" existing_tables)

unfoldable pub downgrade_0010 : List Op
downgrade_0010 =
    Op.drop_index "ix_chat_messages_conversation_id" "chat_messages"
    ∷ Op.drop_table "chat_messages"
    ∷ Op.drop_index "ix_conversations_user_id" "conversations"
    ∷ Op.drop_table "conversations"
    ∷ Op.drop_table "agent_settings"
    ∷ []

unfoldable pub upgrade_0011 : List Op
upgrade_0011 = add_column "agent_settings" (optional "llm_base_url" ColumnType.string) ∷ []

unfoldable pub downgrade_0011 : List Op
downgrade_0011 = Op.drop_column "agent_settings" "llm_base_url" ∷ []
