-- ===== src/Migrations/Head.antt =====
-- `alembic upgrade head` and `alembic downgrade base` on a database that has nothing under the names
-- of the repository.
use onecrawler_backend.Prelude.{
  ◌≡◌, refl, true, Option, none, some, List, [], ◌∷◌, String, str_eq, All, Bool-cases, inl, inr,
}
use onecrawler_backend.Migrations.Schema.{Cell, Database}
use onecrawler_backend.Migrations.Operations.{Outcome, ◌>>=◌, map_done}
use onecrawler_backend.Migrations.Running.{run}
use onecrawler_backend.Migrations.Frame.{Clear, beside}
use onecrawler_backend.Migrations.Beside.{run-beside}
use onecrawler_backend.Migrations.Versions.{Casts}
use onecrawler_backend.Migrations.Chain.{
  Migration, Deployed, history, table_names, at_revision, upgrade_through, downgrade_through, up_to,
  applied, untracked, upgrade_head, downgrade_base,
}
use onecrawler_backend.Migrations.Names.{own_names, Contained, history-Contained}
use onecrawler_backend.Migrations.Metadata.{metadata}
use onecrawler_backend.Migrations.Matching.{implements}

abbrev empty : Database
empty = record { tables = []; functions = [] }

abbrev deployed_of : Deployed → Outcome Deployed → Deployed
deployed_of d (Outcome.done e) = e
deployed_of d (Outcome.failed f) = d

module _ (casts : Casts) (time : Cell) where
  -- the tables that the migrations make
  unfoldable pub head : Database
  unfolding history upgrade_through
  head =
      (deployed_of (untracked casts time empty)
        (upgrade_through time (history casts) (untracked casts time empty))).database

  upgrade_empty :
      upgrade_through time (history casts) (untracked casts time empty)
      ≡ Outcome.done (at_revision (some "0011") head)
  unfolding head
  upgrade_empty = refl

  pub head-implements : implements metadata head.tables ≡ true
  unfolding head implements metadata
  head-implements = refl

  downgrade_empty :
      downgrade_through time
        (applied (some "0011") (history casts))
        (at_revision (some "0011") head)
      ≡ Outcome.done (untracked casts time empty)
  unfolding head history downgrade_through
  downgrade_empty = refl

-- revisions that run beside the other tables of a database
module _ (time : Cell) (s : Database) (clear : All (Clear s) own_names) where
  abbrev deployed_beside : Deployed → Deployed
  deployed_beside d = at_revision d.revision (beside s d.database)

  bind-beside :
      (r : Option String) (f : Deployed → Outcome Deployed)
      → ((d : Deployed) → f (deployed_beside d) ≡ map_done deployed_beside (f d))
      → (o : Outcome Database)
      → (map_done (at_revision r) (map_done (beside s) o) >>= f)
        ≡ map_done deployed_beside (map_done (at_revision r) o >>= f)
  bind-beside r f h (Outcome.failed e) = refl
  bind-beside r f h (Outcome.done d) = h (at_revision r d)

  upgrade_through-beside :
      (ms : List Migration) (d : Deployed)
      → All (Contained s clear) ms
      → upgrade_through time ms (deployed_beside d)
        ≡ map_done deployed_beside (upgrade_through time ms d)
  unfolding upgrade_through
  upgrade_through-beside [] d h = refl
  upgrade_through-beside (m ∷ ms) d h =
      rw
        (
          h.0.up_beside d.database,
          run-beside s time (m.upgrade (table_names d.database)) d.database
              (h.0.up_clear (table_names d.database)),
        )
        (bind-beside (some m.revision) (upgrade_through time ms)
          (λ e. upgrade_through-beside ms e h.1)
          (run time (m.upgrade (table_names d.database)) d.database))

  downgrade_through-beside :
      (ms : List Migration) (d : Deployed)
      → All (Contained s clear) ms
      → downgrade_through time ms (deployed_beside d)
        ≡ map_done deployed_beside (downgrade_through time ms d)
  unfolding downgrade_through
  downgrade_through-beside [] d h = refl
  downgrade_through-beside (m ∷ ms) d h =
      rw (run-beside s time m.downgrade d.database h.0.down_clear) (
        bind-beside m.down_revision (downgrade_through time ms)
          (λ e. downgrade_through-beside ms e h.1) (run time m.downgrade d.database))

  up_to-Contained :
      (r : String) (before ms : List Migration)
      → All (Contained s clear) before
      → All (Contained s clear) ms
      → All (Contained s clear) (up_to r before ms)
  up_to-Contained r before [] hb h = tt
  up_to-Contained r before (m ∷ ms) hb h = elim (Bool-cases (str_eq m.revision r)) [
    | inl e ↦ rw e (h.0, hb)
    | inr e ↦ rw e (up_to-Contained r (m ∷ before) ms (h.0, hb) h.1)
  ]

-- `alembic upgrade head`, on a database that Alembic has not seen and that has no table, index or
-- function of a name of the repository and no foreign key to one, succeeds at revision 0011. What
-- the database held is as it was. Beside it stands one table for each class of db/models.py, with
-- the columns of the class, each of its type and nullability, its keys, foreign keys and indexes,
-- and no other key.
pub upgrade_head-metadata :
    (casts : Casts) (time : Cell) (s : Database)
    → All (Clear s) own_names
    → (d : Database) × (upgrade_head casts time (untracked casts time s)
        ≡ (none, at_revision (some "0011") (beside s d)))
      × (implements metadata d.tables ≡ true)
unfolding upgrade_head
upgrade_head-metadata casts time s clear = (
  head casts time,
  rw
      (
        upgrade_through-beside time s clear (history casts) (untracked casts time empty)
            (history-Contained s clear casts),
        upgrade_empty casts time,
      )
      refl,
  head-implements casts time,
)

-- `alembic downgrade base` takes an upgrade back: run after `alembic upgrade head`, it leaves a
-- database that Alembic had not seen, and that had no table, index or function of a name of the
-- repository and no foreign key to one, as it was before both.
pub downgrade_base-upgrade_head :
    (casts : Casts) (time : Cell) (s : Database)
    → All (Clear s) own_names
    → downgrade_base casts time (upgrade_head casts time (untracked casts time s)).1
      ≡ (none, untracked casts time s)
unfolding upgrade_head downgrade_base
downgrade_base-upgrade_head casts time s clear =
    rw
      (
        upgrade_through-beside time s clear (history casts) (untracked casts time empty)
            (history-Contained s clear casts),
        upgrade_empty casts time,
        downgrade_through-beside time s clear (applied (some "0011") (history casts))
            (at_revision (some "0011") (head casts time))
            (up_to-Contained time s clear "0011" [] (history casts) tt
              (history-Contained s clear casts)),
        downgrade_empty casts time,
      )
      refl
