-- ===== src/Migrations/Versions/Settings.antt =====
-- alembic/versions/0004, 0006, 0007 and 0008: the templates and the keys, the seeds of a job, and
-- the owners of all three
use onecrawler_backend.Prelude.{List, [], ◌∷◌}
use onecrawler_backend.Migrations.Schema.{ColumnType}
use onecrawler_backend.Migrations.Operations.{Op}
use onecrawler_backend.Migrations.Versions.{required, optional, primary, unique, add_column}

unfoldable pub upgrade_0004 : List Op
upgrade_0004 =
    Op.create_table "crawl_settings_templates" (
      primary "id" ColumnType.uuid
      ∷ unique (required "name" ColumnType.string)
      ∷ required "settings" ColumnType.jsonb
      ∷ optional "filters" ColumnType.jsonb
      ∷ required "created_at" ColumnType.big_integer
      ∷ required "updated_at" ColumnType.big_integer
      ∷ [])
    ∷ Op.create_table "provider_api_keys" (
        primary "provider" ColumnType.string
        ∷ required "api_key" ColumnType.text
        ∷ required "updated_at" ColumnType.big_integer
        ∷ [])
    ∷ []

unfoldable pub downgrade_0004 : List Op
downgrade_0004 = Op.drop_table "provider_api_keys" ∷ Op.drop_table "crawl_settings_templates" ∷ []

unfoldable pub upgrade_0006 : List Op
upgrade_0006 = add_column "crawl_jobs" (optional "seed_urls" ColumnType.jsonb) ∷ []

unfoldable pub downgrade_0006 : List Op
downgrade_0006 = Op.drop_column "crawl_jobs" "seed_urls" ∷ []

unfoldable pub upgrade_0007 : List Op
upgrade_0007 =
    add_column "crawl_jobs" (required "user_id" ColumnType.uuid)
    ∷ Op.create_foreign_key "fk_crawl_jobs_user_id_users" "crawl_jobs" "users" ("user_id" ∷ [])
        ("id" ∷ [])
    ∷ []

unfoldable pub downgrade_0007 : List Op
downgrade_0007 =
    Op.drop_constraint "fk_crawl_jobs_user_id_users" "crawl_jobs"
    ∷ Op.drop_column "crawl_jobs" "user_id"
    ∷ []

unfoldable pub upgrade_0008 : List Op
upgrade_0008 =
    add_column "crawl_settings_templates" (required "user_id" ColumnType.uuid)
    ∷ Op.create_foreign_key "fk_crawl_settings_templates_user_id_users" "crawl_settings_templates"
        "users" ("user_id" ∷ []) ("id" ∷ [])
    ∷ Op.drop_constraint "crawl_settings_templates_name_key" "crawl_settings_templates"
    ∷ Op.create_unique "uq_crawl_settings_templates_user_id_name" "crawl_settings_templates"
        ("user_id" ∷ "name" ∷ [])
    ∷ add_column "provider_api_keys" (required "user_id" ColumnType.uuid)
    ∷ Op.drop_constraint "provider_api_keys_pkey" "provider_api_keys"
    ∷ Op.create_primary_key "provider_api_keys_pkey" "provider_api_keys"
        ("user_id" ∷ "provider" ∷ [])
    ∷ Op.create_foreign_key "fk_provider_api_keys_user_id_users" "provider_api_keys" "users"
        ("user_id" ∷ []) ("id" ∷ [])
    ∷ []

unfoldable pub downgrade_0008 : List Op
downgrade_0008 =
    Op.drop_constraint "fk_provider_api_keys_user_id_users" "provider_api_keys"
    ∷ Op.drop_constraint "provider_api_keys_pkey" "provider_api_keys"
    ∷ Op.create_primary_key "provider_api_keys_pkey" "provider_api_keys" ("provider" ∷ [])
    ∷ Op.drop_column "provider_api_keys" "user_id"
    ∷ Op.drop_constraint "uq_crawl_settings_templates_user_id_name" "crawl_settings_templates"
    ∷ Op.create_unique "crawl_settings_templates_name_key" "crawl_settings_templates" ("name" ∷ [])
    ∷ Op.drop_constraint "fk_crawl_settings_templates_user_id_users" "crawl_settings_templates"
    ∷ Op.drop_column "crawl_settings_templates" "user_id"
    ∷ []
