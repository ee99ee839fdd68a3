-- ===== src/Migrations/Running.antt =====
-- A list of `op` calls run in order on a database: the first that fails is the outcome.
use onecrawler_backend.Prelude.{Bool, true, false, not, if◌then◌else◌, List, [], ◌∷◌, ◌++◌, String}
use onecrawler_backend.Tables.{find}
use onecrawler_backend.Migrations.Schema.{
  Cell, ConstraintKind, Constraint, Index, Table, Database, all, mem, same_names, is_table, taken,
  depended, targets, distinct,
}
use onecrawler_backend.Migrations.Effects.{
  require, resolves, alter, add_to, remove_from, retype, redefault, add_constraint, add_primary_key,
  add_foreign_key, remove_constraint, key_columns, remove_index, remove_table, remove_name,
}
use onecrawler_backend.Migrations.Operations.{Op, Failure, Outcome, ◌>>=◌, map_done, new_table}

abbrev pub guard : Bool → Failure → Outcome (List Table) → Outcome (List Table)
guard true e r = r
guard false e r = Outcome.failed e

abbrev pub add_index : Index → Table → Outcome Table
add_index i t = Outcome.done (record t { indexes = t.indexes ++ i ∷ [] })

-- the constraints of the table of a name
abbrev pub constraints_of : String → List Table → List Constraint
constraints_of n [] = []
constraints_of n (t ∷ ts) = if is_table n t then t.constraints else constraints_of n ts

abbrev pub same_targets : List String → Constraint → Bool
same_targets ns k = same_names (targets k) ns

abbrev pub targets_column : String → Constraint → Bool
targets_column c k = mem c (targets k)

abbrev pub always : Constraint → Bool
always k = true

-- what an operation does to the tables; a drop fails while another table's foreign key depends on
-- what it drops
module _ (time : Cell) where
  abbrev pub on_tables : Op → List Table → Outcome (List Table)
  on_tables (Op.create_table n ds) ts = guard (not (taken n ts)) (Failure.duplicate_name n) (
      guard (all (resolves ts) (new_table n ds).constraints) (Failure.undefined_name n)
        (Outcome.done (new_table n ds ∷ ts)))
  on_tables (Op.drop_table n) ts = remove_table n ts >>= λ left.
      guard (not (depended n always left)) (Failure.dependent_objects n) (Outcome.done left)
  on_tables (Op.add_column n c) ts = alter n (add_to time c) ts
  on_tables (Op.drop_column n c) ts =
      guard (not (depended n (targets_column c) ts)) (Failure.dependent_objects c)
        (alter n (remove_from c) ts)
  on_tables (Op.alter_type n c k f) ts = alter n (retype c k f) ts
  on_tables (Op.set_default n c d) ts = alter n (redefault c d) ts
  on_tables (Op.create_index i n cs) ts =
      guard (not (taken i ts)) (Failure.duplicate_name i)
        (alter n (add_index (record { name = i; columns = cs })) ts)
  on_tables (Op.drop_index i n) ts = alter n (remove_index i) ts
  on_tables (Op.create_check k n condition holds) ts =
      alter n
        (λ t. require (all holds t.rows) (Failure.check_violation k) (
          add_constraint (record { name = k; kind = ConstraintKind.check condition; columns = [] })
            t))
        ts
  on_tables (Op.create_unique k n cs) ts =
      alter n
        (λ t.
          require (distinct cs t.rows) (Failure.unique_violation k)
            (add_constraint (record { name = k; kind = ConstraintKind.unique; columns = cs }) t))
        ts
  on_tables (Op.create_primary_key k n cs) ts = alter n (add_primary_key k cs) ts
  on_tables (Op.create_foreign_key k n m ls rs) ts =
      alter n (add_foreign_key k m ls rs (find (is_table m) ts)) ts
  on_tables (Op.drop_constraint k n) ts =
      guard (not (depended n (same_targets (key_columns k (constraints_of n ts))) ts))
        (Failure.dependent_objects k) (alter n (remove_constraint k) ts)
  on_tables (Op.create_function f) ts = Outcome.done ts
  on_tables (Op.drop_function f) ts = Outcome.done ts

abbrev pub on_functions : Op → List String → Outcome (List String)
on_functions (Op.create_function f) fs =
    if mem f fs then Outcome.failed (Failure.duplicate_name f) else Outcome.done (f ∷ fs)
on_functions (Op.drop_function f) fs =
    if mem f fs then Outcome.done (remove_name f fs) else Outcome.failed (Failure.undefined_name f)
on_functions _ fs = Outcome.done fs

abbrev pub with_functions : List String → List Table → Database
with_functions fs ts = record { tables = ts; functions = fs }

module _ (time : Cell) where
  abbrev pub apply : Op → Database → Outcome Database
  apply op d = on_functions op d.functions >>= λ fs.
      map_done (with_functions fs) (on_tables time op d.tables)

  unfoldable pub run : List Op → Database → Outcome Database
  run [] d = Outcome.done d
  run (op ∷ ops) d = apply op d >>= run ops
