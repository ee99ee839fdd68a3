-- ===== src/Tables/Order/Ties.antt =====
-- What every answer to an `ORDER BY` has in common, however the database breaks ties.
use mathlib.Core.List
use mathlib.Core.List.{Perm}
use mathlib.Core.List.Perm
use mathlib.Core.Path.{subst}
use onecrawler_backend.Prelude.{
  ℕ, ◌≤◌, ◌<◌, ◌≡◌, ◌∙◌, refl, sym, ap, Bool, true, false, not, List, [], ◌∷◌, ◌++◌, arith, ltb,
  All, Bool-cases, inl, inr, append-nil,
}
use onecrawler_backend.Tables.{select}
use onecrawler_backend.Tables.Laws.{select-append}

false_apart : ¬ (false ≡ true)
false_apart h = cc

abbrev is_true : (b : Bool) → Dec (b ≡ true)
is_true true = yes refl
is_true false = no false_apart

module _ {A : Type 0} where
  -- The keys rise, or stay, from each row to every later one.
  abbrev pub IsOldestFirst : (A → ℕ) → List A → Type 0
  IsOldestFirst key [] = Unit
  IsOldestFirst key (x ∷ xs) = All (λ y. key x ≤ key y) xs × IsOldestFirst key xs

  select-filter : (p : A → Bool) (xs : List A) → select p xs ≡ List.filter (λ x. is_true (p x)) xs
  select-filter p [] = refl
  select-filter p (x ∷ xs) = elim (Bool-cases (p x)) [
    | inl e ↦ rw (e, select-filter p xs) refl
    | inr e ↦ rw (e, select-filter p xs) refl
  ]

  select-perm : (p : A → Bool) {xs ys : List A} → Perm xs ys → Perm (select p xs) (select p ys)
  select-perm p {xs} {ys} h =
      subst (λ l. Perm l (select p ys)) (sym (select-filter p xs))
        (subst (Perm (List.filter (λ x. is_true (p x)) xs)) (sym (select-filter p ys))
          (Perm.filter (λ x. is_true (p x)) h))

  select_whole : (p : A → Bool) (xs : List A) → All (λ x. p x ≡ true) xs → select p xs ≡ xs
  select_whole p [] h = refl
  select_whole p (x ∷ xs) h = rw (h.0, select_whole p xs h.1) refl

  select_no : (p : A → Bool) (xs : List A) → All (λ x. p x ≡ false) xs → select p xs ≡ []
  select_no p [] h = refl
  select_no p (x ∷ xs) h = rw (h.0, select_no p xs h.1) refl

  module _ (key : A → ℕ) (t : ℕ) where
    abbrev old : A → Bool
    old x = ltb (key x) t

    abbrev late : A → Bool
    late x = not (ltb (key x) t)

    from_late : (xs : List A) → All (λ y. t ≤ key y) xs → All (λ y. old y ≡ false) xs
    from_late [] h = tt
    from_late (x ∷ xs) h = (ground (arith, h.0), from_late xs h.1)

    when_late : (xs : List A) → All (λ y. t ≤ key y) xs → All (λ y. late y ≡ true) xs
    when_late [] h = tt
    when_late (x ∷ xs) h = (ground (arith, h.0), when_late xs h.1)

    when_old : (xs : List A) → All (λ y. key y < t) xs → All (λ y. old y ≡ true) xs
    when_old [] h = tt
    when_old (x ∷ xs) h = (ground (arith, h.0), when_old xs h.1)

    when_old_no_late : (xs : List A) → All (λ y. key y < t) xs → All (λ y. late y ≡ false) xs
    when_old_no_late [] h = tt
    when_old_no_late (x ∷ xs) h = (ground (arith, h.0), when_old_no_late xs h.1)

    All-from : (k : ℕ) (xs : List A) → t ≤ k → All (λ y. k ≤ key y) xs → All (λ y. t ≤ key y) xs
    All-from k [] l h = tt
    All-from k (x ∷ xs) l h = (omega (arith, l, h.0), All-from k xs l h.1)

    -- Rows in order are those before a time and then the others.
    split_at_time : (xs : List A) → IsOldestFirst key xs → xs ≡ select old xs ++ select late xs
    split_at_time [] h = refl
    split_at_time (x ∷ xs) h = elim (Bool-cases (ltb (key x) t)) [
      | inl e ↦ rw e (ap (◌∷◌ x) (split_at_time xs h.1))
      | inr e ↦
          let later = All-from (key x) xs (ground (arith, e)) h.0 in
          rw (e, select_no old xs (from_late xs later), select_whole late xs (when_late xs later))
            refl
    ]

    -- An answer with rows of before a time and rows of after it has the first ones first.
    pub sorted_parts :
        (xs earlier later : List A)
        → IsOldestFirst key xs
        → Perm xs (earlier ++ later)
        → All (λ y. key y < t) earlier
        → All (λ y. t ≤ key y) later
        → (first : List A) × (last : List A) × (xs ≡ first ++ last)
          × Perm first earlier
          × Perm last later
    sorted_parts xs earlier later sorted h before after = (
      select old xs,
      select late xs,
      split_at_time xs sorted,
      subst (Perm (select old xs))
          (select-append old earlier later
            ∙ rw
                (
                  select_whole old earlier (when_old earlier before),
                  select_no old later (from_late later after),
                )
                (append-nil earlier))
          (select-perm old h),
      subst (Perm (select late xs))
          (select-append late earlier later
            ∙ rw
                (
                  select_no late earlier (when_old_no_late earlier before),
                  select_whole late later (when_late later after),
                )
                refl)
          (select-perm late h),
    )
