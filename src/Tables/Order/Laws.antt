-- ===== src/Tables/Order/Laws.antt =====
-- What sorting a table and cutting a page from it keep.
use mathlib.Core.List.{Perm}
use mathlib.Core.List.Perm
use onecrawler_backend.Prelude.{
  ℕ, zero, suc, ◌+◌, ◌≤◌, ◌≡◌, refl, sym, ◌∙◌, Bool, true, List, [], ◌∷◌, ◌++◌, arith, leb, ap,
  Bool-cases, inl, inr, take, drop, length, All, All-take,
}
use onecrawler_backend.Tables.{select}
use onecrawler_backend.Tables.Order.{insert_by, sort_by, order_by, order_by_desc}

module _ {ℓ} {A : Type ℓ} where
  insert_by-perm :
      (ahead : A → A → Bool) (x : A) (xs : List A) → Perm (insert_by ahead x xs) (x ∷ xs)
  unfolding insert_by
  insert_by-perm ahead x [] = Perm.refl (x ∷ [])
  insert_by-perm ahead x (y ∷ ys) = elim (Bool-cases (ahead x y)) [
    | inl e ↦ rw e (Perm.refl (x ∷ y ∷ ys))
    | inr e ↦ rw e (Perm.trans (Perm.cons y (insert_by-perm ahead x ys)) (Perm.swap x y ys))
  ]

  sort_by-perm : (ahead : A → A → Bool) (xs : List A) → Perm (sort_by ahead xs) xs
  unfolding sort_by
  sort_by-perm ahead [] = Perm.refl []
  sort_by-perm ahead (x ∷ xs) =
      Perm.trans (insert_by-perm ahead x (sort_by ahead xs)) (Perm.cons x (sort_by-perm ahead xs))

  pub order_by-perm : (key : A → ℕ) (xs : List A) → Perm (order_by key xs) xs
  unfolding order_by
  order_by-perm key xs = sort_by-perm (λ x y. leb (key x) (key y)) xs

  pub order_by_desc-perm : (key : A → ℕ) (xs : List A) → Perm (order_by_desc key xs) xs
  unfolding order_by_desc
  order_by_desc-perm key xs = sort_by-perm (λ x y. leb (key y) (key x)) xs

  insert_by-All {κ} :
      (P : A → Type κ) (ahead : A → A → Bool) (x : A) (xs : List A)
      → P x
      → All P xs
      → All P (insert_by ahead x xs)
  unfolding insert_by
  insert_by-All P ahead x [] p h = (p, tt)
  insert_by-All P ahead x (y ∷ ys) p h = elim (Bool-cases (ahead x y)) [
    | inl e ↦ rw e (p, h)
    | inr e ↦ rw e (h.0, insert_by-All P ahead x ys p h.1)
  ]

  sort_by-All {κ} :
      (P : A → Type κ) (ahead : A → A → Bool) (xs : List A) → All P xs → All P (sort_by ahead xs)
  unfolding sort_by
  sort_by-All P ahead [] h = tt
  sort_by-All P ahead (x ∷ xs) h =
      insert_by-All P ahead x (sort_by ahead xs) h.0 (sort_by-All P ahead xs h.1)

  pub order_by_desc-All {κ} :
      (P : A → Type κ) (key : A → ℕ) (xs : List A) → All P xs → All P (order_by_desc key xs)
  unfolding order_by_desc
  order_by_desc-All P key xs h = sort_by-All P (λ x y. leb (key y) (key x)) xs h

  pub order_by-All {κ} :
      (P : A → Type κ) (key : A → ℕ) (xs : List A) → All P xs → All P (order_by key xs)
  unfolding order_by
  order_by-All P key xs h = sort_by-All P (λ x y. leb (key x) (key y)) xs h

  -- The keys fall, or stay, from each row to every later one.
  abbrev pub IsNewestFirst : (A → ℕ) → List A → Type 0
  IsNewestFirst key [] = Unit
  IsNewestFirst key (x ∷ xs) = All (λ y. key y ≤ key x) xs × IsNewestFirst key xs

  All-weaken :
      (key : A → ℕ) (a b : ℕ) (xs : List A)
      → a ≤ b
      → All (λ y. key y ≤ a) xs
      → All (λ y. key y ≤ b) xs
  All-weaken key a b [] l h = tt
  All-weaken key a b (x ∷ xs) l h = (omega arith, All-weaken key a b xs l h.1)

  insert_by-IsNewestFirst :
      (key : A → ℕ) (x : A) (xs : List A)
      → IsNewestFirst key xs
      → IsNewestFirst key (insert_by (λ u v. leb (key v) (key u)) x xs)
  unfolding insert_by
  insert_by-IsNewestFirst key x [] h = (tt, tt)
  insert_by-IsNewestFirst key x (y ∷ ys) h = elim (Bool-cases (leb (key y) (key x))) [
    | inl e ↦ rw e ((ground arith, All-weaken key (key y) (key x) ys (ground arith) h.0), h)
    | inr e ↦ rw e (
      insert_by-All (λ v. key v ≤ key y) (λ u v. leb (key v) (key u)) x ys (ground arith) h.0,
      insert_by-IsNewestFirst key x ys h.1,
    )
  ]

  pub order_by_desc-IsNewestFirst :
      (key : A → ℕ) (xs : List A) → IsNewestFirst key (order_by_desc key xs)
  unfolding order_by_desc sort_by
  order_by_desc-IsNewestFirst key [] = tt
  order_by_desc-IsNewestFirst key (x ∷ xs) =
      insert_by-IsNewestFirst key x (order_by_desc key xs) (order_by_desc-IsNewestFirst key xs)

  pub take-IsNewestFirst :
      (key : A → ℕ) (n : ℕ) (xs : List A) → IsNewestFirst key xs → IsNewestFirst key (take n xs)
  take-IsNewestFirst key zero xs h = tt
  take-IsNewestFirst key (suc n) [] h = tt
  take-IsNewestFirst key (suc n) (x ∷ xs) h =
      (All-take (λ y. key y ≤ key x) n xs h.0, take-IsNewestFirst key n xs h.1)

  pub drop-IsNewestFirst :
      (key : A → ℕ) (n : ℕ) (xs : List A) → IsNewestFirst key xs → IsNewestFirst key (drop n xs)
  drop-IsNewestFirst key zero xs h = h
  drop-IsNewestFirst key (suc n) [] h = tt
  drop-IsNewestFirst key (suc n) (x ∷ xs) h = drop-IsNewestFirst key n xs h.1

  pub select-All : (p : A → Bool) (xs : List A) → All (λ x. p x ≡ true) (select p xs)
  select-All p [] = tt
  select-All p (x ∷ xs) = elim (Bool-cases (p x)) [
    | inl e ↦ rw e (e, select-All p xs)
    | inr e ↦ rw e (select-All p xs)
  ]

  -- What holds of every row holds of those that were selected.
  pub All-select {κ} :
      (P : A → Type κ) (p : A → Bool) (xs : List A) → All P xs → All P (select p xs)
  All-select P p [] h = tt
  All-select P p (x ∷ xs) h = elim (Bool-cases (p x)) [
    | inl e ↦ rw e (h.0, All-select P p xs h.1)
    | inr e ↦ rw e (All-select P p xs h.1)
  ]

  take-nil : (n : ℕ) → take {A = A} n [] ≡ []
  take-nil zero = refl
  take-nil (suc n) = refl

  drop-nil : (n : ℕ) → drop {A = A} n [] ≡ []
  drop-nil zero = refl
  drop-nil (suc n) = refl

  -- A page of `m` rows and the next page of `n` rows are one page of `m + n` rows.
  pub take-append-page : (m n : ℕ) (xs : List A) → take m xs ++ take n (drop m xs) ≡ take (m + n) xs
  take-append-page zero n xs = ap (λ k. take k xs) (omega arith)
  take-append-page (suc m) n [] = take-nil n ∙ sym (take-nil (suc m + n))
  take-append-page (suc m) n (x ∷ xs) =
      let one_more : suc (m + n) ≡ suc m + n = omega arith in
      ap (◌∷◌ x) (take-append-page m n xs) ∙ ap (λ k. take k (x ∷ xs)) one_more

  pub drop-drop : (m n : ℕ) (xs : List A) → drop n (drop m xs) ≡ drop (m + n) xs
  drop-drop zero n xs = ap (λ k. drop k xs) (omega arith)
  drop-drop (suc m) n [] = drop-nil n ∙ sym (drop-nil (suc m + n))
  drop-drop (suc m) n (x ∷ xs) =
      let one_more : suc (m + n) ≡ suc m + n = omega arith in
      drop-drop m n xs ∙ ap (λ k. drop k (x ∷ xs)) one_more

  length-insert_by :
      (ahead : A → A → Bool) (x : A) (xs : List A) → length (insert_by ahead x xs) ≡ suc (length xs)
  unfolding insert_by
  length-insert_by ahead x [] = refl
  length-insert_by ahead x (y ∷ ys) = ground (arith, length-insert_by ahead x ys)

  pub length-order_by_desc : (key : A → ℕ) (xs : List A) → length (order_by_desc key xs) ≡ length xs
  unfolding order_by_desc sort_by
  length-order_by_desc key [] = refl
  length-order_by_desc key (x ∷ xs) =
      length-insert_by (λ u v. leb (key v) (key u)) x (order_by_desc key xs)
      ∙ ap suc (length-order_by_desc key xs)

  pub take_all : (n : ℕ) (xs : List A) → length xs ≤ n → take n xs ≡ xs
  take_all zero [] l = refl
  take_all zero (x ∷ xs) l = absurd (omega (arith, l))
  take_all (suc n) [] l = refl
  take_all (suc n) (x ∷ xs) l = ap (◌∷◌ x) (take_all n xs (omega (arith, l)))

  -- A row that is not before any other stays last.
  insert_by-append :
      (ahead : A → A → Bool) (x last : A) (xs : List A)
      → ahead x last ≡ true
      → insert_by ahead x (xs ++ last ∷ []) ≡ insert_by ahead x xs ++ last ∷ []
  unfolding insert_by
  insert_by-append ahead x last [] e = rw e
  insert_by-append ahead x last (y ∷ ys) e = elim (Bool-cases (ahead x y)) [
    | inl h ↦ rw h
    | inr h ↦ rw h (ap (◌∷◌ y) (insert_by-append ahead x last ys e))
  ]

  pub order_by-append_last :
      (key : A → ℕ) (last : A) (xs : List A)
      → All (λ x. key x ≤ key last) xs
      → order_by key (xs ++ last ∷ []) ≡ order_by key xs ++ last ∷ []
  unfolding order_by sort_by insert_by
  order_by-append_last key last [] h = refl
  order_by-append_last key last (x ∷ xs) h =
      let before : leb (key x) (key last) ≡ true = ground (arith, h.0) in
      ap (insert_by (λ u v. leb (key u) (key v)) x) (order_by-append_last key last xs h.1)
      ∙ insert_by-append (λ u v. leb (key u) (key v)) x last (order_by key xs) before
