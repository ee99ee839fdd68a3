-- ===== src/Migrations/Contents.antt =====
-- What 0005 makes of the contents of the results.
use onecrawler_backend.Prelude.{
  ◌≡◌, refl, Bool, true, false, not, ◌&&◌, Option, none, some, List, [], ◌∷◌, String, str_eq,
  Bool-cases, inl, inr, arith,
}
use onecrawler_backend.Tables.{find}
use onecrawler_backend.Migrations.Schema.{
  Json, JsonFields, ColumnType, Cell, Default, Column, Row, Table, Database, any, all, mem, cell,
  column_named, is_table,
}
use onecrawler_backend.Migrations.Effects.{
  has_column, on_column, convert_cells, convert_rows, is_absent, redefault, retype,
}
use onecrawler_backend.Migrations.Operations.{Outcome}
use onecrawler_backend.Migrations.Running.{run}
use onecrawler_backend.Migrations.Versions.{Casts}
use onecrawler_backend.Migrations.Versions.Content.{
  parsed_or_text, content_to_jsonb, convert_up, to_jsonb_fn, upgrade_0005,
}
use onecrawler_backend.Migrations.Altering.{alter_done, find-is_table}

abbrev is_object : Json → Bool
is_object (Json.object fs) = true
is_object _ = false

abbrev object_cell : Cell → Bool
object_cell (Cell.json j) = is_object j
object_cell _ = false

-- a row whose content is a JSON object
abbrev pub holds_object : Row → Bool
holds_object r = object_cell (cell "content" r)

-- a text that is the JSON of an object, or of nothing
abbrev object_or_none : Option Json → Bool
object_or_none none = true
object_or_none (some j) = is_object j

abbrev text_cell : Cell → Bool
text_cell (Cell.text v) = true
text_cell _ = false

-- a row whose content is a text, as the column was not null before
abbrev pub holds_text : Row → Bool
holds_text r = text_cell (cell "content" r)

wrapped : (v : String) (o : Option Json) → is_object (parsed_or_text v o) ≡ object_or_none o
wrapped v none = refl
wrapped v (some j) = refl

on_column-has :
    (c : String) (f : Column → Column) (cs : List Column)
    → ((d : Column) → (f d).name ≡ d.name)
    → any (column_named c) (on_column c f cs) ≡ any (column_named c) cs
on_column-has c f [] k = refl
on_column-has c f (d ∷ cs) k = elim (Bool-cases (column_named c d)) [
  | inl p ↦ rw (p, k d, p) refl
  | inr p ↦ rw (p, p, on_column-has c f cs k) refl
]

abbrev without_default : Column → Column
without_default d = record d { server_default = Default.absent }

on_column-absent :
    (c : String) (cs : List Column)
    → any
        (λ (d : Column). column_named c d && not (is_absent d.server_default))
        (on_column c without_default cs)
      ≡ false
on_column-absent c [] = refl
on_column-absent c (d ∷ cs) = elim (Bool-cases (column_named c d)) [
  | inl p ↦ rw (p, p, on_column-absent c cs) refl
  | inr p ↦ rw (p, p, on_column-absent c cs) refl
]

abbrev retyped : Column → Column
retyped d = record d { kind = ColumnType.jsonb }

abbrev defaulted : Column → Column
defaulted d = record d {
  server_default = Default.constant (Cell.json (Json.object JsonFields.no_fields));
}

abbrev on_content : (Column → Column) → Table → Table
on_content f t = record t { columns = on_column "content" f t.columns }

retype_content :
    (f : Cell → Option Cell) (t : Table) (rs : List Row)
    → has_column "content" t ≡ true
    → convert_rows "content" f t.rows ≡ some rs
    → retype "content" ColumnType.jsonb f (on_content without_default t)
      ≡ Outcome.done (record (on_content retyped (on_content without_default t)) { rows = rs })
retype_content f t rs h e =
    rw
      (
        on_column-has "content" without_default t.columns (λ d. refl),
        h,
        on_column-absent "content" t.columns,
        e,
      )
      refl

redefault_content :
    (d : Default) (t : Table)
    → has_column "content" t ≡ true
    → redefault "content" d t ≡ Outcome.done (on_content (λ c. record c { server_default = d }) t)
redefault_content d t h = rw h refl

module _ (casts : Casts) where
  abbrev plain_cell : Cell → Bool
  plain_cell (Cell.text v) = object_or_none (casts.to_jsonb v)
  plain_cell _ = false

  -- a row whose content does not parse, or parses as an object
  abbrev pub plain_or_object : Row → Bool
  plain_or_object r = plain_cell (cell "content" r)

  converts_cell :
      (x : Cell)
      → text_cell x ≡ true
      → (y : Cell) × (convert_up casts x ≡ some y) × (object_cell y ≡ plain_cell x)
  unfolding content_to_jsonb
  converts_cell (Cell.text v) h =
      (Cell.json (content_to_jsonb casts v), refl, wrapped v (casts.to_jsonb v))
  converts_cell Cell.null h = absurd (ground (arith, h))
  converts_cell (Cell.number n) h = absurd (ground (arith, h))
  converts_cell (Cell.boolean b) h = absurd (ground (arith, h))
  converts_cell (Cell.json j) h = absurd (ground (arith, h))

  converts :
      (r : Row)
      → holds_text r ≡ true
      → (q : Row) × (convert_cells "content" (convert_up casts) r ≡ some q)
        × (holds_object q ≡ plain_or_object r)
  unfolding content_to_jsonb
  converts [] h = absurd (ground (arith, h))
  converts ((n, x) ∷ r) h = elim (Bool-cases (str_eq n "content")) [
    | inl p ↦
        let (y, e, k) = converts_cell x (ground (arith, p, h)) in
        ((n, y) ∷ r, rw (p, e) refl, rw p k)
    | inr p ↦
        let (q, e, k) = converts r (ground (arith, p, h)) in ((n, x) ∷ q, rw (p, e) refl, rw p k)
  ]

  converts_rows :
      (rs : List Row)
      → all holds_text rs ≡ true
      → (qs : List Row) × (convert_rows "content" (convert_up casts) rs ≡ some qs)
        × (all holds_object qs ≡ all plain_or_object rs)
  converts_rows [] h = ([], refl, refl)
  converts_rows (r ∷ rs) h =
      let (q, e, k) = converts r (ground (arith, h)) in
      let (qs, es, ks) = converts_rows rs (ground (arith, h)) in (q ∷ qs, rw (e, es), rw (k, ks))

  -- 0005 succeeds on a database that has the table of results with a text in every content, and no
  -- function of the name that it creates. Afterwards every content is a JSON object exactly when
  -- each text was one that does not parse as JSON or that parses as an object, and the functions
  -- are those of before.
  pub upgrade_0005-objects :
      (time : Cell) (d : Database) (t : Table)
      → find (is_table "crawl_result_items") d.tables ≡ some t
      → has_column "content" t ≡ true
      → all holds_text t.rows ≡ true
      → mem to_jsonb_fn d.functions ≡ false
      → (e : Database) × (u : Table) × (run time (upgrade_0005 casts) d ≡ Outcome.done e)
        × (find (is_table "crawl_result_items") e.tables ≡ some u)
        × (e.functions ≡ d.functions)
        × (all holds_object u.rows ≡ all plain_or_object t.rows)
  unfolding run upgrade_0005
  upgrade_0005-objects time d t found has texts free =
      let name = find-is_table "crawl_result_items" d.tables t found in
      let (rs, converted, objects) = converts_rows t.rows texts in
      let t1 : Table = on_content without_default t in
      let (ts1, e1, f1) =
        alter_done "crawl_result_items" (redefault "content" Default.absent) t t1 d.tables found
          (redefault_content Default.absent t has) name in
      let t2 : Table = record (on_content retyped t1) { rows = rs } in
      let (ts2, e2, f2) =
        alter_done "crawl_result_items" (retype "content" ColumnType.jsonb (convert_up casts)) t1 t2
          ts1 f1 (retype_content (convert_up casts) t rs has converted) name in
      let t3 : Table = on_content defaulted t2 in
      let (ts3, e3, f3) =
        alter_done "crawl_result_items"
          (redefault "content" (Default.constant (Cell.json (Json.object JsonFields.no_fields)))) t2
          t3 ts2 f2
          (redefault_content (Default.constant (Cell.json (Json.object JsonFields.no_fields))) t2 (
            rw
              (
                on_column-has "content" retyped t1.columns (λ c. refl),
                on_column-has "content" without_default t.columns (λ c. refl),
                has,
              )
              refl))
          name in
      (
        record { tables = ts3; functions = d.functions },
        t3,
        rw (free, e1, e2, e3) refl,
        f3,
        refl,
        objects,
      )
