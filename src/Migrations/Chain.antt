-- ===== src/Migrations/Chain.antt =====
-- alembic/env.py: the revisions in the order of their `down_revision`, and the commands
-- `alembic upgrade head` and `alembic downgrade base`, each in one transaction.
use onecrawler_backend.Prelude.{
  if◌then◌else◌, Option, none, some, List, [], ◌∷◌, map, String, str_eq,
}
use onecrawler_backend.Migrations.Schema.{Cell, Table, Database}
use onecrawler_backend.Migrations.Operations.{Op, Failure, Outcome, ◌>>=◌, map_done}
use onecrawler_backend.Migrations.Running.{run}
use onecrawler_backend.Migrations.Versions.{Casts}
use onecrawler_backend.Migrations.Versions.Initial.{upgrade_0001, downgrade_0001}
use onecrawler_backend.Migrations.Versions.Accounts.{
  upgrade_0002, downgrade_0002, upgrade_0003, downgrade_0003, upgrade_0009, downgrade_0009,
}
use onecrawler_backend.Migrations.Versions.Settings.{
  upgrade_0004, downgrade_0004, upgrade_0006, downgrade_0006, upgrade_0007, downgrade_0007,
  upgrade_0008, downgrade_0008,
}
use onecrawler_backend.Migrations.Versions.Content.{upgrade_0005, downgrade_0005}
use onecrawler_backend.Migrations.Versions.Assistant.{
  upgrade_0010, downgrade_0010, upgrade_0011, downgrade_0011,
}

-- A revision: `upgrade` is given the names of the tables, which 0010 reads.
pub record Migration : Type 0 where
  pub revision : String
  pub down_revision : Option String
  pub upgrade : List String → List Op
  pub downgrade : List Op

-- What a database holds, with the revision that `alembic_version` records. `none` stands for a
-- database without that table and for one whose table is empty, as a downgrade to base leaves it:
-- Alembic runs the same revisions on both, and the table itself is not among those modelled.
pub record Deployed : Type 0 where
  pub database : Database
  pub revision : Option String

abbrev pub fixed : String → Option String → List Op → List Op → Migration
fixed r d up down = record {
  revision = r;
  down_revision = d;
  upgrade = λ names. up;
  downgrade = down;
}

-- to unfold this is to unfold every migration
unfoldable pub history : Casts → List Migration
unfolding upgrade_0001 downgrade_0001 upgrade_0002 downgrade_0002 upgrade_0003 downgrade_0003
    upgrade_0004 downgrade_0004 upgrade_0005 downgrade_0005 upgrade_0006 downgrade_0006 upgrade_0007
    downgrade_0007 upgrade_0008 downgrade_0008 upgrade_0009 downgrade_0009 upgrade_0010
    downgrade_0010 upgrade_0011 downgrade_0011
history casts =
    fixed "0001" none upgrade_0001 downgrade_0001
    ∷ fixed "0002" (some "0001") upgrade_0002 downgrade_0002
    ∷ fixed "0003" (some "0002") upgrade_0003 downgrade_0003
    ∷ fixed "0004" (some "0003") upgrade_0004 downgrade_0004
    ∷ fixed "0005" (some "0004") (upgrade_0005 casts) (downgrade_0005 casts)
    ∷ fixed "0006" (some "0005") upgrade_0006 downgrade_0006
    ∷ fixed "0007" (some "0006") upgrade_0007 downgrade_0007
    ∷ fixed "0008" (some "0007") upgrade_0008 downgrade_0008
    ∷ fixed "0009" (some "0008") upgrade_0009 downgrade_0009
    ∷ record {
      revision = "0010";
      down_revision = some "0009";
      upgrade = upgrade_0010 casts;
      downgrade = downgrade_0010;
    }
    ∷ fixed "0011" (some "0010") upgrade_0011 downgrade_0011
    ∷ []

-- the revisions after one
abbrev after : String → List Migration → List Migration
after r [] = []
after r (m ∷ ms) = let rest = after r ms in if str_eq m.revision r then ms else rest

abbrev pub pending : Option String → List Migration → List Migration
pending none ms = ms
pending (some r) ms = after r ms

-- the revisions up to one, the last first
abbrev pub up_to : String → List Migration → List Migration → List Migration
up_to r done_before [] = []
up_to r done_before (m ∷ ms) =
    let rest = up_to r (m ∷ done_before) ms in if str_eq m.revision r then m ∷ done_before else rest

abbrev pub applied : Option String → List Migration → List Migration
applied none ms = []
applied (some r) ms = up_to r [] ms

abbrev pub table_name : Table → String
table_name t = t.name

-- `inspector.get_table_names()`
abbrev pub table_names : Database → List String
table_names d = map table_name d.tables

abbrev pub at_revision : Option String → Database → Deployed
at_revision r d = record { database = d; revision = r }

module _ (time : Cell) where
  unfoldable pub upgrade_through : List Migration → Deployed → Outcome Deployed
  unfolding run
  upgrade_through [] d = Outcome.done d
  upgrade_through (m ∷ ms) d =
      map_done (at_revision (some m.revision))
        (run time (m.upgrade (table_names d.database)) d.database)
      >>= upgrade_through ms

  unfoldable pub downgrade_through : List Migration → Deployed → Outcome Deployed
  unfolding run
  downgrade_through [] d = Outcome.done d
  downgrade_through (m ∷ ms) d =
      map_done (at_revision m.down_revision) (run time m.downgrade d.database)
      >>= downgrade_through ms

-- `with context.begin_transaction(): context.run_migrations()`: an error undoes the whole command
abbrev transaction : Deployed → Outcome Deployed → Option Failure × Deployed
transaction d (Outcome.done d') = (none, d')
transaction d (Outcome.failed e) = (some e, d)

module _ (casts : Casts) (time : Cell) where
  -- `alembic upgrade head`
  unfoldable pub upgrade_head : Deployed → Option Failure × Deployed
  upgrade_head d = transaction d (upgrade_through time (pending d.revision (history casts)) d)

  -- `alembic downgrade base`
  unfoldable pub downgrade_base : Deployed → Option Failure × Deployed
  downgrade_base d = transaction d (downgrade_through time (applied d.revision (history casts)) d)

  -- a database that Alembic has not seen
  abbrev pub untracked : Database → Deployed
  untracked d = record { database = d; revision = none }
