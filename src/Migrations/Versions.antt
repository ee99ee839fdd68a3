-- ===== src/Migrations/Versions.antt =====
-- The calls of `sa.Column` that the migrations of alembic/versions share, and PostgreSQL's casts.
pub mod Initial
pub mod Accounts
pub mod Settings
pub mod Content
pub mod Assistant
use onecrawler_backend.Prelude.{Bool, true, false, Option, none, some, String}
use onecrawler_backend.Migrations.Schema.{Json, ColumnType, Cell, Default, Column}
use onecrawler_backend.Migrations.Operations.{ForeignKey, ColumnDef, Op, column_of}

-- `value::jsonb` and `value::uuid`, which may raise, and `value::text`
pub record Casts : Type 0 where
  pub to_jsonb : String → Option Json
  pub to_uuid : String → Option String
  pub to_text : Json → String

-- `sa.Column(n, k, nullable=…, server_default=…)`
abbrev column : String → ColumnType → Bool → Default → ColumnDef
column n k nullable d = record {
  name = n;
  kind = k;
  nullable = nullable;
  primary_key = false;
  unique = false;
  foreign_key = none;
  server_default = d;
}

abbrev pub required : String → ColumnType → ColumnDef
required n k = column n k false Default.absent

abbrev pub optional : String → ColumnType → ColumnDef
optional n k = column n k true Default.absent

abbrev pub defaulted : String → ColumnType → Cell → ColumnDef
defaulted n k c = column n k false (Default.constant c)

-- `sa.Column(n, sa.DateTime(timezone=True), server_default=sa.func.now(), nullable=False)`
abbrev pub stamped : String → ColumnDef
stamped n = column n ColumnType.timestamptz false Default.now

-- `sa.Column(n, k, primary_key=True)`
abbrev pub primary : String → ColumnType → ColumnDef
primary n k = record (required n k) { primary_key = true }

-- with `unique=True`
abbrev pub unique : ColumnDef → ColumnDef
unique d = record d { unique = true }

-- with `sa.ForeignKey("table.column", ondelete="CASCADE")`
abbrev pub references : String → String → ColumnDef → ColumnDef
references t c d = record d { foreign_key = some (record { table = t; column = c }) }

abbrev pub add_column : String → ColumnDef → Op
add_column n d = Op.add_column n (column_of d)
