-- ===== src/Migrations/Beside.antt =====
-- Lists of calls on two databases side by side.
use onecrawler_backend.Prelude.{
  ◌≡◌, refl, Bool, true, false, List, [], ◌∷◌, ◌++◌, String, str_eq, Bool-cases, inl, inr, All,
  if◌then◌else◌, arith,
}
use onecrawler_backend.Migrations.Schema.{Cell, Table, Database, mem}
use onecrawler_backend.Migrations.Effects.{remove_name}
use onecrawler_backend.Migrations.Operations.{Op, Failure, Outcome, ◌>>=◌, map_done}
use onecrawler_backend.Migrations.Running.{on_tables, on_functions, with_functions, apply, run}
use onecrawler_backend.Migrations.Frame.Tables.{any-append}
use onecrawler_backend.Migrations.Frame.{mentions, Clear, beside, tables_beside, on_tables-beside}

module _ (s : Database) where
  abbrev names_beside : List String → List String
  names_beside a = a ++ s.functions

  remove_name-append :
      (f : String) (fs : List String)
      → mem f fs ≡ true
      → remove_name f (names_beside fs) ≡ names_beside (remove_name f fs)
  remove_name-append f [] h = absurd (ground (arith, h))
  remove_name-append f (g ∷ fs) h = elim (Bool-cases (str_eq f g)) [
    | inl e ↦ rw e refl
    | inr e ↦ rw (e, remove_name-append f fs (ground (arith, e, h))) refl
  ]

  choice-map :
      (b : Bool) (xs : List String) (e : Failure)
      → (if b then Outcome.done (names_beside xs) else Outcome.failed e)
        ≡ map_done names_beside (if b then Outcome.done xs else Outcome.failed e)
  choice-map true xs e = refl
  choice-map false xs e = refl

  on_functions-beside :
      (op : Op) (fs : List String)
      → All (Clear s) (mentions op)
      → on_functions op (names_beside fs) ≡ map_done names_beside (on_functions op fs)
  on_functions-beside (Op.create_function f) fs h =
      rw (any-append (str_eq f) fs s.functions h.0.undefined)
        (elim (Bool-cases (mem f fs)) [ inl e ↦ rw e refl | inr e ↦ rw e refl ])
  on_functions-beside (Op.drop_function f) fs h =
      rw (any-append (str_eq f) fs s.functions h.0.undefined) (elim (Bool-cases (mem f fs)) [
        | inl e ↦ rw (e, remove_name-append f fs e) refl
        | inr e ↦ rw e refl
      ])
  on_functions-beside (Op.create_table n ds) fs h = refl
  on_functions-beside (Op.drop_table n) fs h = refl
  on_functions-beside (Op.add_column n c) fs h = refl
  on_functions-beside (Op.drop_column n c) fs h = refl
  on_functions-beside (Op.alter_type n c k f) fs h = refl
  on_functions-beside (Op.set_default n c d) fs h = refl
  on_functions-beside (Op.create_index i n cs) fs h = refl
  on_functions-beside (Op.drop_index i n) fs h = refl
  on_functions-beside (Op.create_check k n condition holds) fs h = refl
  on_functions-beside (Op.create_unique k n cs) fs h = refl
  on_functions-beside (Op.create_primary_key k n cs) fs h = refl
  on_functions-beside (Op.create_foreign_key k n m ls rs) fs h = refl
  on_functions-beside (Op.drop_constraint k n) fs h = refl

  both-map :
      (o : Outcome (List String)) (p : Outcome (List Table))
      → (map_done names_beside o >>= λ fs.
          map_done (with_functions fs) (map_done (tables_beside s) p))
        ≡ map_done (beside s) (o >>= λ fs. map_done (with_functions fs) p)
  both-map (Outcome.failed e) p = refl
  both-map (Outcome.done fs) (Outcome.failed e) = refl
  both-map (Outcome.done fs) (Outcome.done ts) = refl

  module _ (time : Cell) where
    apply-beside :
        (op : Op) (d : Database)
        → All (Clear s) (mentions op)
        → apply time op (beside s d) ≡ map_done (beside s) (apply time op d)
    apply-beside op d h =
        rw (on_functions-beside op d.functions h, on_tables-beside s time d.tables op h)
          (both-map (on_functions op d.functions) (on_tables time op d.tables))

    bind-map :
        (f : Database → Outcome Database)
        → ((d : Database) → f (beside s d) ≡ map_done (beside s) (f d))
        → (o : Outcome Database) → (map_done (beside s) o >>= f) ≡ map_done (beside s) (o >>= f)
    bind-map f h (Outcome.failed e) = refl
    bind-map f h (Outcome.done d) = h d

    -- Calls run on two databases side by side as on the one whose tables they name.
    pub run-beside :
        (ops : List Op) (d : Database)
        → All (λ op. All (Clear s) (mentions op)) ops
        → run time ops (beside s d) ≡ map_done (beside s) (run time ops d)
    unfolding run
    run-beside [] d h = refl
    run-beside (op ∷ ops) d h =
        rw (apply-beside op d h.0)
          (bind-map (run time ops) (λ d'. run-beside ops d' h.1) (apply time op d))
