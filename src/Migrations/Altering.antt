-- ===== src/Migrations/Altering.antt =====
-- `ALTER TABLE` of a table that a database has.
use onecrawler_backend.Prelude.{
  ◌≡◌, sym, true, some, List, [], ◌∷◌, String, Bool-cases, inl, inr, arith,
}
use onecrawler_backend.Tables.{find}
use onecrawler_backend.Migrations.Schema.{Table, is_table}
use onecrawler_backend.Migrations.Effects.{alter}
use onecrawler_backend.Migrations.Operations.{Failure, Outcome}

module _ (n : String) (f : Table → Outcome Table) (t : Table) where
  -- An error is the outcome.
  pub alter_fails :
      (e : Failure) (ts : List Table)
      → find (is_table n) ts ≡ some t
      → f t ≡ Outcome.failed e
      → alter n f ts ≡ Outcome.failed e
  alter_fails e [] h q = absurd (ground (arith, h))
  alter_fails e (u ∷ ts) h q = elim (Bool-cases (is_table n u)) [
    | inl p ↦ let same : u ≡ t = ground (arith, p, h) in rw (p, same, q)
    | inr p ↦ let rest = alter_fails e ts (ground (arith, p, h)) q in rw (p, rest)
  ]

  -- Otherwise the name is the new table's.
  pub alter_done :
      (t' : Table) (ts : List Table)
      → find (is_table n) ts ≡ some t
      → f t ≡ Outcome.done t'
      → is_table n t' ≡ true
      → (ts' : List Table) × (alter n f ts ≡ Outcome.done ts') × (find (is_table n) ts' ≡ some t')
  alter_done t' [] h q k = absurd (ground (arith, h))
  alter_done t' (u ∷ ts) h q k = elim (Bool-cases (is_table n u)) [
    | inl p ↦ let same : u ≡ t = ground (arith, p, h) in (t' ∷ ts, rw (p, same, q), rw k)
    | inr p ↦
        let (ts', e, g) = alter_done t' ts (ground (arith, p, h)) q k in
        (u ∷ ts', rw (p, e), rw (p, g))
  ]

pub find-is_table :
    (n : String) (ts : List Table) (t : Table) → find (is_table n) ts ≡ some t → is_table n t ≡ true
find-is_table n [] t h = absurd (ground (arith, h))
find-is_table n (u ∷ ts) t h = elim (Bool-cases (is_table n u)) [
  | inl p ↦ let same : u ≡ t = ground (arith, p, h) in rw (sym same) p
  | inr p ↦ find-is_table n ts t (ground (arith, p, h))
]
