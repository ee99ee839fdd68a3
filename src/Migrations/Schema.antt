-- ===== src/Migrations/Schema.antt =====
-- A PostgreSQL database as alembic/versions see it: tables with their columns, constraints,
-- indexes and rows, and the functions of the schema.
use onecrawler_backend.Prelude.{
  ℕ, Bool, true, false, not, ◌&&◌, ◌||◌, ◌==◌, if◌then◌else◌, List, [], ◌∷◌, String, str_eq,
}

-- the values of `JSONB`
mutual
  pub data Json : Type 0 where
    null : Json
    boolean : Bool → Json
    number : String → Json
    text : String → Json
    array : JsonList → Json
    object : JsonFields → Json

  pub data JsonList : Type 0 where
    end : JsonList
    more : Json → JsonList → JsonList

  pub data JsonFields : Type 0 where
    no_fields : JsonFields
    field : String → Json → JsonFields → JsonFields

-- `sa.String`, `sa.Text`, `sa.Integer`, `sa.BigInteger`, `sa.Boolean`, `postgresql.UUID`,
-- `postgresql.JSONB` and `sa.DateTime(timezone=True)`
pub data ColumnType : Type 0 where
  string : ColumnType
  text : ColumnType
  integer : ColumnType
  big_integer : ColumnType
  boolean : ColumnType
  uuid : ColumnType
  jsonb : ColumnType
  timestamptz : ColumnType

pub data Cell : Type 0 where
  null : Cell
  text : String → Cell
  number : ℕ → Cell
  boolean : Bool → Cell
  json : Json → Cell

-- `server_default`: none, a constant, or `now()`
pub data Default : Type 0 where
  absent : Default
  constant : Cell → Default
  now : Default

pub record Column : Type 0 where
  pub name : String
  pub kind : ColumnType
  pub nullable : Bool
  pub server_default : Default

pub data ConstraintKind : Type 0 where
  primary : ConstraintKind
  unique : ConstraintKind
  foreign : String → List String → ConstraintKind
  check : String → ConstraintKind

-- A foreign key names its target table and columns, and cascades. A check holds its text.
pub record Constraint : Type 0 where
  pub name : String
  pub kind : ConstraintKind
  pub columns : List String

pub record Index : Type 0 where
  pub name : String
  pub columns : List String

abbrev pub Row : Type 0
Row = List (String × Cell)

pub record Table : Type 0 where
  pub name : String
  pub columns : List Column
  pub constraints : List Constraint
  pub indexes : List Index
  pub rows : List Row

pub record Database : Type 0 where
  pub tables : List Table
  pub functions : List String

abbrev pub any {ℓ} : {A : Type ℓ} → (A → Bool) → List A → Bool
any p [] = false
any p (x ∷ xs) = p x || any p xs

abbrev pub all {ℓ} : {A : Type ℓ} → (A → Bool) → List A → Bool
all p [] = true
all p (x ∷ xs) = p x && all p xs

abbrev pub mem : String → List String → Bool
mem n = any (str_eq n)

abbrev pub same_names : List String → List String → Bool
same_names [] [] = true
same_names (m ∷ ms) (n ∷ ns) = str_eq m n && same_names ms ns
same_names _ _ = false

-- the cell of a row in a column
abbrev pub cell : String → Row → Cell
cell n [] = Cell.null
cell n ((m, c) ∷ r) = if str_eq m n then c else cell n r

abbrev pub is_null : Cell → Bool
is_null Cell.null = true
is_null _ = false

-- SQL's `=` on the cells of a key, true only of two values that are not null
abbrev pub same_cell : Cell → Cell → Bool
same_cell (Cell.text s) (Cell.text t) = str_eq s t
same_cell (Cell.number m) (Cell.number n) = m == n
same_cell _ _ = false

abbrev pub same_key : List String → List String → Row → Row → Bool
same_key (m ∷ ms) (n ∷ ns) r q = same_cell (cell m r) (cell n q) && same_key ms ns r q
same_key _ _ r q = true

-- No two rows have the same key.
abbrev pub distinct : List String → List Row → Bool
distinct ns [] = true
distinct ns (r ∷ rs) = not (any (same_key ns ns r) rs) && distinct ns rs

abbrev pub column_named : String → Column → Bool
column_named n c = str_eq c.name n

abbrev pub is_table : String → Table → Bool
is_table n t = str_eq t.name n

-- Tables and indexes share the names of the schema.
abbrev pub holds_name : String → Table → Bool
holds_name n t = str_eq t.name n || any (λ (i : Index). str_eq i.name n) t.indexes

abbrev pub taken : String → List Table → Bool
taken n = any (holds_name n)

-- a foreign key to a table
abbrev pub refers_kind : String → ConstraintKind → Bool
refers_kind n (ConstraintKind.foreign m ts) = str_eq m n
refers_kind n _ = false

abbrev pub refers : String → Constraint → Bool
refers n k = refers_kind n k.kind

abbrev pub table_refers : String → (Constraint → Bool) → Table → Bool
table_refers n p t = any (λ k. refers n k && p k) t.constraints

-- Some foreign key to a table satisfies a test.
abbrev pub depended : String → (Constraint → Bool) → List Table → Bool
depended n p = any (table_refers n p)

-- the columns that a foreign key points to
abbrev pub targets : Constraint → List String
targets k = elim k.kind [ ConstraintKind.foreign m ts ↦ ts | _ ↦ [] ]

abbrev pub is_key_kind : ConstraintKind → Bool
is_key_kind ConstraintKind.primary = true
is_key_kind ConstraintKind.unique = true
is_key_kind _ = false

-- a primary key or a unique constraint on exactly these columns
abbrev pub is_key : List String → Constraint → Bool
is_key ns k = is_key_kind k.kind && same_names k.columns ns
