-- ===== src/Examples/Migrating.antt =====
-- A database that the migrations of alembic/versions are run on, and the theorems about them there.
use onecrawler_backend.Prelude.{
  ◌≡◌, refl, true, false, none, some, [], ◌∷◌, String, All, str_eq, if◌then◌else◌,
}
use onecrawler_backend.Tables.{find}
use onecrawler_backend.Migrations.Schema.{
  Json, JsonFields, ColumnType, Cell, Default, ConstraintKind, Table, Database, all, taken,
  is_table,
}
use onecrawler_backend.Migrations.Operations.{Failure, Outcome}
use onecrawler_backend.Migrations.Running.{run}
use onecrawler_backend.Migrations.Frame.{Clear, beside}
use onecrawler_backend.Migrations.Names.{own_names}
use onecrawler_backend.Migrations.Versions.{Casts}
use onecrawler_backend.Migrations.Versions.Content.{upgrade_0005}
use onecrawler_backend.Migrations.Chain.{
  Deployed, at_revision, untracked, upgrade_head, downgrade_base,
}
use onecrawler_backend.Migrations.Metadata.{metadata}
use onecrawler_backend.Migrations.Matching.{implements}
use onecrawler_backend.Migrations.Head.{upgrade_head-metadata, downgrade_base-upgrade_head}
use onecrawler_backend.Migrations.Owners.{upgrade_head_with_jobs}
use onecrawler_backend.Migrations.Contents.{holds_object, plain_or_object, upgrade_0005-objects}

-- casts that know one number and one object
abbrev casts : Casts
casts = record {
  to_jsonb = λ s.
      if str_eq s "42"
      then some (Json.number "42")
      else if str_eq s "{}"
      then some (Json.object JsonFields.no_fields)
      else none;
  to_uuid = some;
  to_text = λ j. "{}";
}

abbrev time : Cell
time = Cell.number 1700000000

-- another program's table, with a row
abbrev notes : Table
notes = record {
  name = "notes";
  columns =
      record {
        name = "id";
        kind = ColumnType.integer;
        nullable = false;
        server_default = Default.absent;
      }
      ∷ [];
  constraints =
      record { name = "notes_pkey"; kind = ConstraintKind.primary; columns = "id" ∷ [] } ∷ [];
  indexes = [];
  rows = (("id", Cell.number 1) ∷ []) ∷ [];
}

abbrev others : Database
others = record { tables = notes ∷ []; functions = [] }

free : (n : String) → taken n others.tables ≡ false → Clear others n
free n h = record { untaken = h; unreferred = refl; undefined = refl }

others-Clear : All (Clear others) own_names
unfolding own_names
others-Clear = (
  free "crawl_jobs" refl,
  (
    free "discovered_urls" refl,
    (
      free "ix_discovered_urls_job_id" refl,
      (
        free "crawl_result_items" refl,
        (
          free "ix_crawl_result_items_job_id" refl,
          (
            free "log_lines" refl,
            (
              free "ix_log_lines_job_id" refl,
              (
                free "users" refl,
                (
                  free "crawl_settings_templates" refl,
                  (
                    free "provider_api_keys" refl,
                    (
                      free "_crawl_result_content_to_jsonb" refl,
                      (
                        free "refresh_sessions" refl,
                        (
                          free "ix_refresh_sessions_user_id" refl,
                          (
                            free "agent_settings" refl,
                            (
                              free "conversations" refl,
                              (
                                free "ix_conversations_user_id" refl,
                                (
                                  free "chat_messages" refl,
                                  (free "ix_chat_messages_conversation_id" refl, tt),
                                ),
                              ),
                            ),
                          ),
                        ),
                      ),
                    ),
                  ),
                ),
              ),
            ),
          ),
        ),
      ),
    ),
  ),
)

upgrade_head-metadata_example :
    (d : Database) × (upgrade_head casts time (untracked casts time others)
      ≡ (none, at_revision (some "0011") (beside others d)))
    × (implements metadata d.tables ≡ true)
upgrade_head-metadata_example = upgrade_head-metadata casts time others others-Clear

downgrade_base-upgrade_head_example :
    downgrade_base casts time (upgrade_head casts time (untracked casts time others)).1
    ≡ (none, untracked casts time others)
downgrade_base-upgrade_head_example = downgrade_base-upgrade_head casts time others others-Clear

-- a table of jobs without owners
abbrev old_jobs : Table
old_jobs = record {
  name = "crawl_jobs";
  columns =
      record {
        name = "id";
        kind = ColumnType.uuid;
        nullable = false;
        server_default = Default.absent;
      }
      ∷ [];
  constraints = [];
  indexes = [];
  rows = (("id", Cell.text "job-1") ∷ []) ∷ [];
}

abbrev before_owners : Deployed
before_owners = record {
  database = record { tables = old_jobs ∷ []; functions = [] };
  revision = some "0006";
}

upgrade_head_with_jobs_example :
    upgrade_head casts time before_owners
    ≡ (some (Failure.not_null_violation "user_id"), before_owners)
upgrade_head_with_jobs_example =
    upgrade_head_with_jobs casts time before_owners old_jobs (("id", Cell.text "job-1") ∷ []) []
      refl refl refl refl

-- results with a text, an object and a number as their contents
abbrev old_results : Table
old_results = record {
  name = "crawl_result_items";
  columns =
      record {
        name = "content";
        kind = ColumnType.text;
        nullable = false;
        server_default = Default.constant (Cell.text "");
      }
      ∷ [];
  constraints = [];
  indexes = [];
  rows =
      (("content", Cell.text "# Title") ∷ [])
      ∷ (("content", Cell.text "{}") ∷ [])
      ∷ (("content", Cell.text "42") ∷ [])
      ∷ [];
}

abbrev with_results : Database
with_results = record { tables = old_results ∷ []; functions = [] }

upgrade_0005-objects_example :
    (e : Database) × (u : Table) × (run time (upgrade_0005 casts) with_results ≡ Outcome.done e)
    × (find (is_table "crawl_result_items") e.tables ≡ some u)
    × (e.functions ≡ [])
    × (all holds_object u.rows ≡ all (plain_or_object casts) old_results.rows)
upgrade_0005-objects_example =
    upgrade_0005-objects casts time with_results old_results refl refl refl refl

-- The number is what keeps the contents from being objects.
old_results_not_all : all (plain_or_object casts) old_results.rows ≡ false
old_results_not_all = refl
