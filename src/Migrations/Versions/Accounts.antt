-- ===== src/Migrations/Versions/Accounts.antt =====
-- alembic/versions/0002_add_users.py, 0003_users_name_and_type_check.py and
-- 0009_refresh_sessions.py
use onecrawler_backend.Prelude.{Bool, true, false, ◌||◌, List, [], ◌∷◌, str_eq}
use onecrawler_backend.Migrations.Schema.{ColumnType, Cell, Row, cell}
use onecrawler_backend.Migrations.Operations.{Op}
use onecrawler_backend.Migrations.Versions.{
  required, optional, defaulted, primary, unique, references, add_column,
}

unfoldable pub upgrade_0002 : List Op
upgrade_0002 =
    Op.create_table "users" (
      primary "id" ColumnType.uuid
      ∷ unique (required "email" ColumnType.string)
      ∷ required "hashed_password" ColumnType.string
      ∷ defaulted "is_active" ColumnType.boolean (Cell.boolean true)
      ∷ defaulted "user_type" ColumnType.string (Cell.text "user")
      ∷ [])
    ∷ []

unfoldable pub downgrade_0002 : List Op
downgrade_0002 = Op.drop_table "users" ∷ []

-- `user_type IN ('admin', 'user')`
abbrev is_user_type : Cell → Bool
is_user_type (Cell.text s) = str_eq s "admin" || str_eq s "user"
is_user_type Cell.null = true
is_user_type _ = false

abbrev pub has_user_type : Row → Bool
has_user_type r = is_user_type (cell "user_type" r)

unfoldable pub upgrade_0003 : List Op
upgrade_0003 =
    add_column "users" (defaulted "name" ColumnType.string (Cell.text ""))
    ∷ Op.create_check "ck_users_user_type" "users" "user_type IN ('admin', 'user')" has_user_type
    ∷ []

unfoldable pub downgrade_0003 : List Op
downgrade_0003 =
    Op.drop_constraint "ck_users_user_type" "users" ∷ Op.drop_column "users" "name" ∷ []

unfoldable pub upgrade_0009 : List Op
upgrade_0009 =
    Op.create_table "refresh_sessions" (
      primary "jti" ColumnType.uuid
      ∷ references "users" "id" (required "user_id" ColumnType.uuid)
      ∷ required "created_at" ColumnType.big_integer
      ∷ required "expires_at" ColumnType.big_integer
      ∷ optional "revoked_at" ColumnType.big_integer
      ∷ [])
    ∷ Op.create_index "ix_refresh_sessions_user_id" "refresh_sessions" ("user_id" ∷ [])
    ∷ []

unfoldable pub downgrade_0009 : List Op
downgrade_0009 =
    Op.drop_index "ix_refresh_sessions_user_id" "refresh_sessions"
    ∷ Op.drop_table "refresh_sessions"
    ∷ []
