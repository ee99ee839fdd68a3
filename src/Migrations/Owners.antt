-- ===== src/Migrations/Owners.antt =====
-- 0007 on a database that has jobs already
use onecrawler_backend.Prelude.{◌≡◌, refl, false, some, List, ◌∷◌}
use onecrawler_backend.Tables.{find}
use onecrawler_backend.Migrations.Schema.{ColumnType, Cell, Column, Row, Table, is_table}
use onecrawler_backend.Migrations.Effects.{add_to, has_column}
use onecrawler_backend.Migrations.Operations.{Failure, Outcome, column_of}
use onecrawler_backend.Migrations.Running.{run}
use onecrawler_backend.Migrations.Versions.{Casts, required}
use onecrawler_backend.Migrations.Chain.{Deployed, history, upgrade_through, upgrade_head}
use onecrawler_backend.Migrations.Altering.{alter_fails}

abbrev owner_column : Column
owner_column = column_of (required "user_id" ColumnType.uuid)

refused :
    (time : Cell) (jobs : Table) (row : Row) (rows : List Row)
    → jobs.rows ≡ row ∷ rows
    → has_column "user_id" jobs ≡ false
    → add_to time owner_column jobs ≡ Outcome.failed (Failure.not_null_violation "user_id")
refused time jobs row rows filled bare = rw (bare, filled) refl

-- A database at revision 0006 that has a crawl job, in a table without a column `user_id`, cannot be
-- upgraded: the command fails on that column, which is added as not null and without a default, and
-- the database stays as it was.
pub upgrade_head_with_jobs :
    (casts : Casts) (time : Cell) (d : Deployed) (jobs : Table) (row : Row) (rows : List Row)
    → d.revision ≡ some "0006"
    → find (is_table "crawl_jobs") d.database.tables ≡ some jobs
    → jobs.rows ≡ row ∷ rows
    → has_column "user_id" jobs ≡ false
    → upgrade_head casts time d ≡ (some (Failure.not_null_violation "user_id"), d)
unfolding upgrade_head upgrade_through run history
upgrade_head_with_jobs casts time d jobs row rows at found filled bare =
    rw
      (
        at,
        alter_fails "crawl_jobs" (add_to time owner_column) jobs
            (Failure.not_null_violation "user_id") d.database.tables found
            (refused time jobs row rows filled bare),
      )
      refl
