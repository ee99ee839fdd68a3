-- ===== src/Migrations/Operations.antt =====
-- The operations of Alembic's `op` that the migrations issue, on a database of `Schema`, with the
-- errors PostgreSQL documents for them. Alembic and PostgreSQL are not part of the repository: a
-- cast is an argument, and a name that PostgreSQL gives to a constraint is the documented one.
use onecrawler_backend.Prelude.{
  Bool, not, ◌&&◌, if◌then◌else◌, Option, none, some, List, [], ◌∷◌, ◌++◌, map, String, str_append,
}
use onecrawler_backend.Tables.{select}
use onecrawler_backend.Migrations.Schema.{
  ColumnType, Cell, Default, Column, ConstraintKind, Constraint, Row, Table,
}

-- `sa.ForeignKey("table.column", ondelete="CASCADE")`
pub record ForeignKey : Type 0 where
  pub table : String
  pub column : String

-- `sa.Column(…)`
pub record ColumnDef : Type 0 where
  pub name : String
  pub kind : ColumnType
  pub nullable : Bool
  pub primary_key : Bool
  pub unique : Bool
  pub foreign_key : Option ForeignKey
  pub server_default : Default

pub data Op : Type 0 where
  create_table : String → List ColumnDef → Op
  drop_table : String → Op
  add_column : String → Column → Op
  drop_column : String → String → Op
  -- the new type, and the expression of `postgresql_using`, which may raise
  alter_type : String → String → ColumnType → (Cell → Option Cell) → Op
  -- `ALTER COLUMN … SET DEFAULT`, and `DROP DEFAULT` as one that is absent
  set_default : String → String → Default → Op
  create_index : String → String → List String → Op
  drop_index : String → String → Op
  -- the text of the condition and what it tests
  create_check : String → String → String → (Row → Bool) → Op
  create_unique : String → String → List String → Op
  create_primary_key : String → String → List String → Op
  create_foreign_key : String → String → String → List String → List String → Op
  drop_constraint : String → String → Op
  create_function : String → Op
  drop_function : String → Op

-- the error classes of PostgreSQL
pub data Failure : Type 0 where
  duplicate_name : String → Failure
  undefined_name : String → Failure
  not_null_violation : String → Failure
  unique_violation : String → Failure
  foreign_key_violation : String → Failure
  check_violation : String → Failure
  dependent_objects : String → Failure
  invalid_value : String → Failure

pub data Outcome {ℓ} (A : Type ℓ) : Type ℓ where
  done : A → Outcome A
  failed : Failure → Outcome A

module _ {ℓ κ} {A : Type ℓ} {B : Type κ} where
  infixl 5 ◌>>=◌
  abbrev pub ◌>>=◌ : Outcome A → (A → Outcome B) → Outcome B
  (Outcome.done a) >>= f = f a
  (Outcome.failed e) >>= f = Outcome.failed e

  abbrev pub map_done : (A → B) → Outcome A → Outcome B
  map_done f (Outcome.done a) = Outcome.done (f a)
  map_done f (Outcome.failed e) = Outcome.failed e

abbrev pub is_primary : ColumnDef → Bool
is_primary d = d.primary_key

abbrev pub column_of : ColumnDef → Column
column_of d = record {
  name = d.name;
  kind = d.kind;
  nullable = d.nullable && not d.primary_key;
  server_default = d.server_default;
}

-- the constraints of one column, under the names that PostgreSQL gives them
abbrev pub foreign_of : String → ColumnDef → Option ForeignKey → List Constraint
foreign_of t d none = []
foreign_of t d (some f) =
    record {
      name = str_append t (str_append "_" (str_append d.name "_fkey"));
      kind = ConstraintKind.foreign f.table (f.column ∷ []);
      columns = d.name ∷ [];
    }
    ∷ []

abbrev pub unique_of : String → ColumnDef → List Constraint
unique_of t d =
    if d.unique
    then record {
      name = str_append t (str_append "_" (str_append d.name "_key"));
      kind = ConstraintKind.unique;
      columns = d.name ∷ [];
    }
      ∷ []
    else []

abbrev pub column_constraints : String → List ColumnDef → List Constraint
column_constraints t [] = []
column_constraints t (d ∷ ds) =
    unique_of t d ++ (foreign_of t d d.foreign_key ++ column_constraints t ds)

abbrev pub def_name : ColumnDef → String
def_name d = d.name

abbrev pub new_table : String → List ColumnDef → Table
new_table n ds = record {
  name = n;
  columns = map column_of ds;
  constraints =
      record {
        name = str_append n "_pkey";
        kind = ConstraintKind.primary;
        columns = map def_name (select is_primary ds);
      }
      ∷ column_constraints n ds;
  indexes = [];
  rows = [];
}
