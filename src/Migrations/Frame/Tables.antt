-- ===== src/Migrations/Frame/Tables.antt =====
-- What the tables that an operation does not name leave of its reading and its writing.
use onecrawler_backend.Prelude.{
  ◌≡◌, refl, ap, Bool, true, false, ◌||◌, ◌&&◌, none, List, [], ◌∷◌, ◌++◌, String, Bool-cases, inl,
  inr, All, arith, if◌then◌else◌,
}
use onecrawler_backend.Tables.{find}
use onecrawler_backend.Migrations.Schema.{
  ConstraintKind, Constraint, Table, any, all, holds_name, is_table, taken, refers, table_refers,
  depended,
}
use onecrawler_backend.Migrations.Effects.{alter, remove_table, resolves_kind, resolves}
use onecrawler_backend.Migrations.Operations.{Failure, Outcome, map_done}
use onecrawler_backend.Migrations.Running.{always, constraints_of}

module _ {ℓ} {A : Type ℓ} where
  pub any-append : (p : A → Bool) (xs ys : List A) → any p ys ≡ false → any p (xs ++ ys) ≡ any p xs
  any-append p [] ys h = h
  any-append p (x ∷ xs) ys h = ap (◌||◌ (p x)) (any-append p xs ys h)

  -- a test that another one implies
  pub any-weaker :
      (p q : A → Bool) (xs : List A)
      → ((x : A) → p x ≡ false → q x ≡ false)
      → any p xs ≡ false
      → any q xs ≡ false
  any-weaker p q [] w h = refl
  any-weaker p q (x ∷ xs) w h = elim (Bool-cases (p x)) [
    | inl e ↦ absurd (ground (arith, e, h))
    | inr e ↦
        let rest = any-weaker p q xs w (ground (arith, e, h)) in
        let head = w x e in ground (arith, head, rest)
  ]

module _ (n : String) where
  untaken-is_table : (t : Table) → holds_name n t ≡ false → is_table n t ≡ false
  untaken-is_table t h = ground (arith, h)

  find-absent : (b : List Table) → any (is_table n) b ≡ false → find (is_table n) b ≡ none
  find-absent [] h = refl
  find-absent (t ∷ b) h = elim (Bool-cases (is_table n t)) [
    | inl e ↦ absurd (ground (arith, e, h))
    | inr e ↦ let rest = find-absent b (ground (arith, e, h)) in rw (e, rest)
  ]

  constraints_of-absent : (b : List Table) → any (is_table n) b ≡ false → constraints_of n b ≡ []
  constraints_of-absent [] h = refl
  constraints_of-absent (t ∷ b) h = elim (Bool-cases (is_table n t)) [
    | inl e ↦ absurd (ground (arith, e, h))
    | inr e ↦ let rest = constraints_of-absent b (ground (arith, e, h)) in rw (e, rest)
  ]

  alter-absent :
      (f : Table → Outcome Table) (b : List Table)
      → any (is_table n) b ≡ false
      → alter n f b ≡ Outcome.failed (Failure.undefined_name n)
  alter-absent f [] h = refl
  alter-absent f (t ∷ b) h = elim (Bool-cases (is_table n t)) [
    | inl e ↦ absurd (ground (arith, e, h))
    | inr e ↦ let rest = alter-absent f b (ground (arith, e, h)) in rw (e, rest)
  ]

  remove_table-absent :
      (b : List Table)
      → any (is_table n) b ≡ false
      → remove_table n b ≡ Outcome.failed (Failure.undefined_name n)
  remove_table-absent [] h = refl
  remove_table-absent (t ∷ b) h = elim (Bool-cases (is_table n t)) [
    | inl e ↦ absurd (ground (arith, e, h))
    | inr e ↦ let rest = remove_table-absent b (ground (arith, e, h)) in rw (e, rest)
  ]

  module _ (b : List Table) (h : taken n b ≡ false) where
    absent : any (is_table n) b ≡ false
    absent = any-weaker (holds_name n) (is_table n) b untaken-is_table h

    pub find-append : (a : List Table) → find (is_table n) (a ++ b) ≡ find (is_table n) a
    find-append [] = find-absent b absent
    find-append (t ∷ a) = rw (find-append a)

    pub constraints_of-append : (a : List Table) → constraints_of n (a ++ b) ≡ constraints_of n a
    constraints_of-append [] = constraints_of-absent b absent
    constraints_of-append (t ∷ a) = rw (constraints_of-append a)

    abbrev beside : Outcome (List Table) → Outcome (List Table)
    beside = map_done (λ ts. ts ++ b)

    -- what is put before the tables of an outcome, or in the place of its first
    beside-cons :
        (c : Bool) (t : Table) (o : Outcome Table) (a : List Table) (r : Outcome (List Table))
        → (if c then map_done (λ t'. t' ∷ (a ++ b)) o else map_done (◌∷◌ t) (beside r))
          ≡ beside (if c then map_done (λ t'. t' ∷ a) o else map_done (◌∷◌ t) r)
    beside-cons true t (Outcome.done t') a r = refl
    beside-cons true t (Outcome.failed e) a r = refl
    beside-cons false t o a (Outcome.done ts) = refl
    beside-cons false t o a (Outcome.failed e) = refl

    pub alter-append :
        (f : Table → Outcome Table) (a : List Table) → alter n f (a ++ b) ≡ beside (alter n f a)
    alter-append f [] = alter-absent f b absent
    alter-append f (t ∷ a) =
        rw (alter-append f a, beside-cons (is_table n t) t (f t) a (alter n f a))

    beside-drop :
        (c : Bool) (t : Table) (a : List Table) (r : Outcome (List Table))
        → (if c then Outcome.done (a ++ b) else map_done (◌∷◌ t) (beside r))
          ≡ beside (if c then Outcome.done a else map_done (◌∷◌ t) r)
    beside-drop true t a r = refl
    beside-drop false t a (Outcome.done ts) = refl
    beside-drop false t a (Outcome.failed e) = refl

    pub remove_table-append : (a : List Table) → remove_table n (a ++ b) ≡ beside (remove_table n a)
    remove_table-append [] = remove_table-absent b absent
    remove_table-append (t ∷ a) =
        rw (remove_table-append a, beside-drop (is_table n t) t a (remove_table n a))

  -- A foreign key to no table outside points to what it pointed to.
  pub depended-append :
      (p : Constraint → Bool) (a b : List Table)
      → depended n always b ≡ false
      → depended n p (a ++ b) ≡ depended n p a
  depended-append p a b h = any-append (table_refers n p) a b (
      any-weaker (table_refers n always) (table_refers n p) b
        (λ t.
          any-weaker (λ k. refers n k && always k) (λ k. refers n k && p k) t.constraints
            (λ k e. ground (arith, e)))
        h)

-- The table, if any, that a constraint refers to is named by nothing outside.
abbrev pub Local : List Table → ConstraintKind → Type 0
Local b (ConstraintKind.foreign n ns) = taken n b ≡ false
Local b _ = Unit

resolves_kind-append :
    (a b : List Table) (k : ConstraintKind)
    → Local b k
    → resolves_kind (a ++ b) k ≡ resolves_kind a k
resolves_kind-append a b (ConstraintKind.foreign n ns) h = rw (find-append n b h a)
resolves_kind-append a b ConstraintKind.primary h = refl
resolves_kind-append a b ConstraintKind.unique h = refl
resolves_kind-append a b (ConstraintKind.check c) h = refl

pub resolves-append :
    (a b : List Table) (ks : List Constraint)
    → All (λ k. Local b k.kind) ks
    → all (resolves (a ++ b)) ks ≡ all (resolves a) ks
resolves-append a b [] h = refl
resolves-append a b (k ∷ ks) h =
    rw (resolves_kind-append a b k.kind h.0, resolves-append a b ks h.1)
