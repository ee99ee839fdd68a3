-- ===== src/Migrations/Matching.antt =====
-- A table of a database against a class of db/models.py, whatever the order of the columns and the
-- names of the constraints.
use onecrawler_backend.Prelude.{
  Bool, true, false, ◌&&◌, ◌||◌, ◌==◌, Option, none, some, List, ◌++◌, map, String, str_eq, length,
}
use onecrawler_backend.Tables.{find}
use onecrawler_backend.Migrations.Schema.{
  ColumnType, Default, Column, ConstraintKind, Constraint, Index, Table, any, all, same_names,
  is_table,
}
use onecrawler_backend.Migrations.Operations.{new_table}
use onecrawler_backend.Migrations.Metadata.{Mapped}

abbrev same_type : ColumnType → ColumnType → Bool
same_type ColumnType.string ColumnType.string = true
same_type ColumnType.text ColumnType.text = true
same_type ColumnType.integer ColumnType.integer = true
same_type ColumnType.big_integer ColumnType.big_integer = true
same_type ColumnType.boolean ColumnType.boolean = true
same_type ColumnType.uuid ColumnType.uuid = true
same_type ColumnType.jsonb ColumnType.jsonb = true
same_type ColumnType.timestamptz ColumnType.timestamptz = true
same_type _ _ = false

abbrev same_bool : Bool → Bool → Bool
same_bool true b = b
same_bool false true = false
same_bool false false = true

-- A `now()` that the model leaves to the server is the server's.
abbrev provides : Default → Default → Bool
provides Default.now Default.now = true
provides Default.now _ = false
provides _ d = true

abbrev same_column : Column → Column → Bool
same_column c d =
    str_eq c.name d.name
    && (same_type c.kind d.kind
        && (same_bool c.nullable d.nullable && provides c.server_default d.server_default))

abbrev same_kind : ConstraintKind → ConstraintKind → Bool
same_kind ConstraintKind.primary ConstraintKind.primary = true
same_kind ConstraintKind.unique ConstraintKind.unique = true
same_kind (ConstraintKind.foreign m ms) (ConstraintKind.foreign n ns) =
    str_eq m n && same_names ms ns
same_kind _ _ = false

abbrev same_constraint : Constraint → Constraint → Bool
same_constraint k j = same_kind k.kind j.kind && same_names k.columns j.columns

abbrev is_check : ConstraintKind → Bool
is_check (ConstraintKind.check c) = true
is_check _ = false

abbrev unique_on : List String → Constraint
unique_on cs = record { name = ""; kind = ConstraintKind.unique; columns = cs }

abbrev declared : Mapped → List Constraint
declared m = (new_table m.table_name m.columns).constraints ++ map unique_on m.uniques

abbrev indexed : Table → List String → Bool
indexed t cs = any (λ (i : Index). same_names i.columns cs) t.indexes

-- The columns of the table are those of the class, each of its type and nullability; so are the
-- keys and the foreign keys, but a table may have checks besides; and the indexes are there.
abbrev matches : Mapped → Table → Bool
matches m t =
    let cs = (new_table m.table_name m.columns).columns in
    all (λ c. any (same_column c) t.columns) cs
    && (length cs == length t.columns
        && (all (λ k. any (same_constraint k) t.constraints) (declared m)
            && (all (λ (k : Constraint). is_check k.kind || any (same_constraint k) (declared m))
                  t.constraints
                && all (indexed t) m.indexes)))

abbrev matches_some : Mapped → Option Table → Bool
matches_some m none = false
matches_some m (some t) = matches m t

-- The tables have one for each class, and no other.
unfoldable pub implements : List Mapped → List Table → Bool
implements ms ts =
    all (λ (m : Mapped). matches_some m (find (is_table m.table_name) ts)) ms
    && length ms == length ts
