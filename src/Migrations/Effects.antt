-- ===== src/Migrations/Effects.antt =====
-- What the calls of `op` do to a table, with the errors that PostgreSQL documents for them.
use onecrawler_backend.Prelude.{
  Bool, true, false, not, ◌&&◌, ◌||◌, if◌then◌else◌, Option, none, some, List, [], ◌∷◌, ◌++◌, map,
  String, str_eq,
}
use onecrawler_backend.Tables.{find, select}
use onecrawler_backend.Migrations.Schema.{
  ColumnType, Cell, Default, Column, ConstraintKind, Constraint, Index, Row, Table, any, all, mem,
  cell, is_null, same_key, distinct, column_named, is_table, targets, is_key_kind, is_key,
}
use onecrawler_backend.Migrations.Operations.{Failure, Outcome, map_done}

abbrev pub require : Bool → Failure → Outcome Table → Outcome Table
require true e r = r
require false e r = Outcome.failed e

-- the value of a default for a row that stands already
abbrev pub initial : Cell → Default → Cell
initial time Default.absent = Cell.null
initial time (Default.constant c) = c
initial time Default.now = time

-- the table and the columns that a foreign key points to are there, as a key
abbrev pub has_key : List String → Option Table → Bool
has_key ns none = false
has_key ns (some t) = any (is_key ns) t.constraints

abbrev pub resolves_kind : List Table → ConstraintKind → Bool
resolves_kind ts (ConstraintKind.foreign n ns) = has_key ns (find (is_table n) ts)
resolves_kind ts _ = true

abbrev pub resolves : List Table → Constraint → Bool
resolves ts k = resolves_kind ts k.kind

-- `ALTER TABLE n …`, whose effect stays within the table
abbrev pub alter : String → (Table → Outcome Table) → List Table → Outcome (List Table)
alter n f [] = Outcome.failed (Failure.undefined_name n)
alter n f (t ∷ ts) =
    let rest = map_done (◌∷◌ t) (alter n f ts) in
    if is_table n t then map_done (λ t'. t' ∷ ts) (f t) else rest

abbrev pub has_column : String → Table → Bool
has_column c t = any (column_named c) t.columns

abbrev pub add_to : Cell → Column → Table → Outcome Table
add_to time c t = require (not (has_column c.name t)) (Failure.duplicate_name c.name) (
    require (c.nullable || not (is_null (initial time c.server_default)) || is_nil t.rows)
      (Failure.not_null_violation c.name)
      (Outcome.done (record t {
        columns = t.columns ++ c ∷ [];
        rows = map (λ r. r ++ (c.name, initial time c.server_default) ∷ []) t.rows;
      })))
  where
    is_nil : List Row → Bool
    is_nil [] = true
    is_nil (r ∷ rs) = false

-- the first column of the name, without or with a change
abbrev pub without_cell : String → Row → Row
without_cell c [] = []
without_cell c ((n, x) ∷ r) = if str_eq n c then r else (n, x) ∷ without_cell c r

-- What stands on a dropped column goes with it.
abbrev pub remove_from : String → Table → Outcome Table
remove_from c t = require (has_column c t) (Failure.undefined_name c) (
    Outcome.done (record t {
      columns = select (λ d. not (column_named c d)) t.columns;
      constraints = select (λ (k : Constraint). not (mem c k.columns)) t.constraints;
      indexes = select (λ (i : Index). not (mem c i.columns)) t.indexes;
      rows = map (without_cell c) t.rows;
    }))

abbrev pub on_column : String → (Column → Column) → List Column → List Column
on_column n f [] = []
on_column n f (c ∷ cs) = (if column_named n c then f c else c) ∷ on_column n f cs

abbrev pub cons_cell : String → Option Cell → Option Row → Option Row
cons_cell m (some y) (some q) = some ((m, y) ∷ q)
cons_cell m _ _ = none

abbrev pub convert_cells : String → (Cell → Option Cell) → Row → Option Row
convert_cells c f [] = some []
convert_cells c f ((n, x) ∷ r) =
    let rest = convert_cells c f r in
    if str_eq n c then cons_cell n (f x) (some r) else cons_cell n (some x) rest

abbrev pub cons_row : Option Row → Option (List Row) → Option (List Row)
cons_row (some q) (some qs) = some (q ∷ qs)
cons_row _ _ = none

abbrev pub convert_rows : String → (Cell → Option Cell) → List Row → Option (List Row)
convert_rows c f [] = some []
convert_rows c f (r ∷ rs) = cons_row (convert_cells c f r) (convert_rows c f rs)

abbrev pub is_absent : Default → Bool
is_absent Default.absent = true
is_absent _ = false

abbrev pub has_default : String → Table → Bool
has_default c t = any (λ d. column_named c d && not (is_absent d.server_default)) t.columns

abbrev pub with_rows : String → Table → Option (List Row) → Outcome Table
with_rows c t none = Outcome.failed (Failure.invalid_value c)
with_rows c t (some rs) = Outcome.done (record t { rows = rs })

-- Every value of the column is converted, or the statement fails. A default must be dropped first:
-- the ones of this repository have no cast to the new type.
abbrev pub retype : String → ColumnType → (Cell → Option Cell) → Table → Outcome Table
retype c k f t = require (has_column c t) (Failure.undefined_name c) (
    require (not (has_default c t)) (Failure.invalid_value c) (
      with_rows c (record t { columns = on_column c (λ d. record d { kind = k }) t.columns })
        (convert_rows c f t.rows)))

abbrev pub redefault : String → Default → Table → Outcome Table
redefault c d t = require (has_column c t) (Failure.undefined_name c) (
    Outcome.done
      (record t { columns = on_column c (λ e. record e { server_default = d }) t.columns }))

abbrev pub constraint_named : String → Constraint → Bool
constraint_named n k = str_eq k.name n

abbrev pub add_constraint : Constraint → Table → Outcome Table
add_constraint k t =
    require (not (any (constraint_named k.name) t.constraints)) (Failure.duplicate_name k.name) (
      require (all (λ c. has_column c t) k.columns) (Failure.undefined_name k.name)
        (Outcome.done (record t { constraints = t.constraints ++ k ∷ [] })))

abbrev pub no_nulls : List String → Row → Bool
no_nulls cs r = all (λ c. not (is_null (cell c r))) cs

abbrev pub is_primary_kind : ConstraintKind → Bool
is_primary_kind ConstraintKind.primary = true
is_primary_kind _ = false

abbrev pub is_primary_constraint : Constraint → Bool
is_primary_constraint k = is_primary_kind k.kind

-- Columns of a primary key are not null from then on.
abbrev pub set_not_null : List String → Column → Column
set_not_null cs c = if mem c.name cs then record c { nullable = false } else c

abbrev pub add_primary_key : String → List String → Table → Outcome Table
add_primary_key n cs t =
    require (not (any is_primary_constraint t.constraints)) (Failure.duplicate_name n) (
      require (all (no_nulls cs) t.rows) (Failure.not_null_violation n) (
        require (distinct cs t.rows) (Failure.unique_violation n) (
          add_constraint (record { name = n; kind = ConstraintKind.primary; columns = cs })
            (record t { columns = map (set_not_null cs) t.columns }))))

-- A row points to a row of the target, or has a null in its key.
abbrev pub points_to : List String → List String → List Row → Row → Bool
points_to ls rs targets r = not (no_nulls ls r) || any (same_key ls rs r) targets

abbrev pub rows_of : Option Table → List Row
rows_of none = []
rows_of (some t) = t.rows

abbrev pub add_foreign_key :
    String → String → List String → List String → Option Table → Table → Outcome Table
add_foreign_key n referent ls rs target t =
    require (has_key rs target) (Failure.undefined_name referent) (
      require (all (points_to ls rs (rows_of target)) t.rows) (Failure.foreign_key_violation n) (
        add_constraint
          (record { name = n; kind = ConstraintKind.foreign referent rs; columns = ls }) t))

abbrev pub remove_constraint : String → Table → Outcome Table
remove_constraint n t =
    require (any (constraint_named n) t.constraints) (Failure.undefined_name n) (
      Outcome.done
        (record t { constraints = select (λ k. not (constraint_named n k)) t.constraints }))

-- the columns of a key that foreign keys may depend on
abbrev pub key_columns : String → List Constraint → List String
key_columns n [] = []
key_columns n (k ∷ ks) =
    if constraint_named n k && is_key_kind k.kind then k.columns else key_columns n ks

abbrev pub index_named : String → Index → Bool
index_named n i = str_eq i.name n

abbrev pub remove_index : String → Table → Outcome Table
remove_index n t =
    require (any (index_named n) t.indexes) (Failure.undefined_name n)
      (Outcome.done (record t { indexes = select (λ i. not (index_named n i)) t.indexes }))

abbrev pub remove_table : String → List Table → Outcome (List Table)
remove_table n [] = Outcome.failed (Failure.undefined_name n)
remove_table n (t ∷ ts) =
    let rest = map_done (◌∷◌ t) (remove_table n ts) in
    if is_table n t then Outcome.done ts else rest

abbrev pub remove_name : String → List String → List String
remove_name n [] = []
remove_name n (m ∷ ms) = if str_eq n m then ms else m ∷ remove_name n ms
