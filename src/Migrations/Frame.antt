-- ===== src/Migrations/Frame.antt =====
-- An operation reads and writes the tables that it names: what else a database holds stays beside
-- its result.
pub mod Tables
use onecrawler_backend.Prelude.{
  ◌≡◌, refl, sym, ◌∙◌, ap, Bool, true, false, ◌||◌, Option, none, some, List, [], ◌∷◌, ◌++◌, String,
  str_eq, Bool-cases, inl, inr, All, All-append, All-split, if◌then◌else◌, not, arith,
}
use onecrawler_backend.Tables.{find}
use onecrawler_backend.Migrations.Schema.{
  holds_name, is_table, Cell, ConstraintKind, Constraint, Table, Database, any, all, mem, taken,
  depended,
}
use onecrawler_backend.Migrations.Effects.{
  resolves, remove_name, remove_table, remove_from, remove_constraint, alter, add_foreign_key,
  key_columns,
}
use onecrawler_backend.Migrations.Operations.{
  ForeignKey, ColumnDef, Op, Failure, Outcome, ◌>>=◌, map_done, new_table, unique_of, foreign_of,
  column_constraints,
}
use onecrawler_backend.Migrations.Running.{
  add_index, constraints_of, same_targets, targets_column, guard, always, on_tables, on_functions,
  with_functions, apply, run,
}
use onecrawler_backend.Migrations.Frame.Tables.{
  any-append, find-append, constraints_of-append, alter-append, remove_table-append,
  depended-append, Local, resolves-append,
}

abbrev referent : Option ForeignKey → List String
referent none = []
referent (some f) = f.table ∷ []

abbrev referents : List ColumnDef → List String
referents [] = []
referents (d ∷ ds) = referent d.foreign_key ++ referents ds

-- the names of tables, indexes and functions in a call
abbrev pub mentions : Op → List String
mentions (Op.create_table n ds) = n ∷ referents ds
mentions (Op.drop_table n) = n ∷ []
mentions (Op.add_column n c) = n ∷ []
mentions (Op.drop_column n c) = n ∷ []
mentions (Op.alter_type n c k f) = n ∷ []
mentions (Op.set_default n c d) = n ∷ []
mentions (Op.create_index i n cs) = i ∷ n ∷ []
mentions (Op.drop_index i n) = i ∷ n ∷ []
mentions (Op.create_check k n condition holds) = n ∷ []
mentions (Op.create_unique k n cs) = n ∷ []
mentions (Op.create_primary_key k n cs) = n ∷ []
mentions (Op.create_foreign_key k n m ls rs) = n ∷ m ∷ []
mentions (Op.drop_constraint k n) = n ∷ []
mentions (Op.create_function f) = f ∷ []
mentions (Op.drop_function f) = f ∷ []

-- A database has no table, index or function of a name, and no foreign key to it.
pub record Clear (s : Database) (n : String) : Type 0 where
  pub untaken : taken n s.tables ≡ false
  pub unreferred : depended n always s.tables ≡ false
  pub undefined : mem n s.functions ≡ false

-- one database beside another
abbrev pub beside : Database → Database → Database
beside s d = record { tables = d.tables ++ s.tables; functions = d.functions ++ s.functions }

module _ (s : Database) where
  abbrev pub tables_beside : List Table → List Table
  tables_beside a = a ++ s.tables

  Locals :
      (d : ColumnDef) (n : String) (f : Option ForeignKey)
      → All (Clear s) (referent f)
      → All (λ k. Local s.tables k.kind) (foreign_of n d f)
  Locals d n none h = tt
  Locals d n (some f) h = (h.0.untaken, tt)

  unique-Locals : (d : ColumnDef) (n : String) → All (λ k. Local s.tables k.kind) (unique_of n d)
  unique-Locals d n = elim (Bool-cases d.unique) [ inl e ↦ rw e (tt, tt) | inr e ↦ rw e tt ]

  referents-Locals :
      (ds : List ColumnDef) (n : String)
      → All (Clear s) (referents ds)
      → All (λ k. Local s.tables k.kind) (column_constraints n ds)
  referents-Locals [] n h = tt
  referents-Locals (d ∷ ds) n h =
      let (here, rest) = All-split (Clear s) (referent d.foreign_key) (referents ds) h in
      All-append (λ k. Local s.tables k.kind) (unique_of n d)
        (foreign_of n d d.foreign_key ++ column_constraints n ds) (unique-Locals d n)
        (All-append (λ k. Local s.tables k.kind) (foreign_of n d d.foreign_key)
          (column_constraints n ds) (Locals d n d.foreign_key here) (referents-Locals ds n rest))

  guard-map :
      (b : Bool) (e : Failure) (o : Outcome (List Table))
      → guard b e (map_done tables_beside o) ≡ map_done tables_beside (guard b e o)
  guard-map true e o = refl
  guard-map false e o = refl

  guards-map :
      (b c : Bool) (e f : Failure) (o : Outcome (List Table))
      → guard b e (guard c f (map_done tables_beside o))
        ≡ map_done tables_beside (guard b e (guard c f o))
  guards-map b c e f o = rw (guard-map c f o) (guard-map b e (guard c f o))

  drop-map :
      (n : String)
      → depended n always s.tables ≡ false
      → (o : Outcome (List Table))
      → (map_done tables_beside o >>= λ left.
          guard (not (depended n always left)) (Failure.dependent_objects n) (Outcome.done left))
        ≡ map_done tables_beside (
            o >>= λ left.
            guard (not (depended n always left)) (Failure.dependent_objects n) (Outcome.done left))
  drop-map n h (Outcome.failed e) = refl
  drop-map n h (Outcome.done left) =
      rw (depended-append n always left s.tables h) (guard-map _ _ (Outcome.done left))

  module _ (time : Cell) (a : List Table) where
    pub on_tables-beside :
        (op : Op)
        → All (Clear s) (mentions op)
        → on_tables time op (tables_beside a) ≡ map_done tables_beside (on_tables time op a)
    on_tables-beside (Op.create_table n ds) h =
        rw
          (
            any-append (holds_name n) a s.tables h.0.untaken,
            resolves-append a s.tables (new_table n ds).constraints (tt, referents-Locals ds n h.1),
          )
          (guards-map (not (taken n a)) (all (resolves a) (new_table n ds).constraints) _ _
            (Outcome.done (new_table n ds ∷ a)))
    on_tables-beside (Op.drop_table n) h =
        rw (remove_table-append n s.tables h.0.untaken a)
          (drop-map n h.0.unreferred (remove_table n a))
    on_tables-beside (Op.add_column n c) h = alter-append n s.tables h.0.untaken _ a
    on_tables-beside (Op.drop_column n c) h =
        rw
          (
            depended-append n (targets_column c) a s.tables h.0.unreferred,
            alter-append n s.tables h.0.untaken (remove_from c) a,
          )
          (guard-map _ _ (alter n (remove_from c) a))
    on_tables-beside (Op.alter_type n c k f) h = alter-append n s.tables h.0.untaken _ a
    on_tables-beside (Op.set_default n c d) h = alter-append n s.tables h.0.untaken _ a
    on_tables-beside (Op.create_index i n cs) h =
        rw
          (
            any-append (holds_name i) a s.tables h.0.untaken,
            alter-append n s.tables h.1.0.untaken (add_index (record { name = i; columns = cs })) a,
          )
          (guard-map _ _ (alter n (add_index (record { name = i; columns = cs })) a))
    on_tables-beside (Op.drop_index i n) h = alter-append n s.tables h.1.0.untaken _ a
    on_tables-beside (Op.create_check k n condition holds) h =
        alter-append n s.tables h.0.untaken _ a
    on_tables-beside (Op.create_unique k n cs) h = alter-append n s.tables h.0.untaken _ a
    on_tables-beside (Op.create_primary_key k n cs) h = alter-append n s.tables h.0.untaken _ a
    on_tables-beside (Op.create_foreign_key k n m ls rs) h =
        rw (find-append m s.tables h.1.0.untaken a)
          (alter-append n s.tables h.0.untaken (add_foreign_key k m ls rs (find (is_table m) a)) a)
    on_tables-beside (Op.drop_constraint k n) h =
        rw
          (
            constraints_of-append n s.tables h.0.untaken a,
            depended-append n (same_targets (key_columns k (constraints_of n a))) a s.tables
                h.0.unreferred,
            alter-append n s.tables h.0.untaken (remove_constraint k) a,
          )
          (guard-map _ _ (alter n (remove_constraint k) a))
    on_tables-beside (Op.create_function f) h = refl
    on_tables-beside (Op.drop_function f) h = refl
