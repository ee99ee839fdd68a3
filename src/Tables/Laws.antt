-- ===== src/Tables/Laws.antt =====
-- What a statement on a table leaves for the next one to read.
use onecrawler_backend.Prelude.{
  ◌+◌, ◌≡◌, refl, Bool, true, false, none, some, List, [], ◌∷◌, ◌++◌, arith, length, is_some,
  if◌then◌else◌,
}
use mathlib.Core.Option
use onecrawler_backend.Tables.{find, select, update, delete, count}

module _ {ℓ} {A : Type ℓ} where
  -- What was found matches.
  pub find_matches : (p : A → Bool) (xs : List A) {a : A} → find p xs ≡ some a → p a ≡ true
  find_matches p [] h = cc
  find_matches p (x ∷ xs) {a} h = ground (arith, find_matches p xs {a = a})

  pub find-append :
      (p : A → Bool) (xs ys : List A) → find p xs ≡ none → find p (xs ++ ys) ≡ find p ys
  find-append p [] ys h = refl
  find-append p (x ∷ xs) ys h = ground (arith, find-append p xs ys)

  pub find-append_some :
      (p : A → Bool) (xs ys : List A) {a : A} → find p xs ≡ some a → find p (xs ++ ys) ≡ some a
  find-append_some p [] ys h = cc
  find-append_some p (x ∷ xs) ys {a} h = ground (arith, find-append_some p xs ys {a = a})

  -- An update by a key reads back at that key, if it keeps the key.
  pub find-update :
      (p : A → Bool) (f : A → A) (xs : List A)
      → ((x : A) → p x ≡ true → p (f x) ≡ true)
      → find p (update p f xs) ≡ Option.map f (find p xs)
  find-update p f [] h = refl
  find-update p f (x ∷ xs) h = ground (arith, h x, find-update p f xs h)

  -- It is not seen by a test that tells the two apart before and after.
  pub find-update_other :
      (q p : A → Bool) (f : A → A) (xs : List A)
      → ((x : A) → p x ≡ true → q x ≡ false)
      → ((x : A) → p x ≡ true → q (f x) ≡ false)
      → find q (update p f xs) ≡ find q xs
  find-update_other q p f [] h k = refl
  find-update_other q p f (x ∷ xs) h k = ground (arith, h x, k x, find-update_other q p f xs h k)

  pub find-delete : (p : A → Bool) (xs : List A) → find p (delete p xs) ≡ none
  find-delete p [] = refl
  find-delete p (x ∷ xs) = ground (arith, find-delete p xs)

  pub select-delete : (p : A → Bool) (xs : List A) → select p (delete p xs) ≡ []
  select-delete p [] = refl
  select-delete p (x ∷ xs) = ground (arith, select-delete p xs)

  pub find-delete_other :
      (q p : A → Bool) (xs : List A)
      → ((x : A) → p x ≡ true → q x ≡ false)
      → find q (delete p xs) ≡ find q xs
  find-delete_other q p [] h = refl
  find-delete_other q p (x ∷ xs) h = ground (arith, h x, find-delete_other q p xs h)

  pub select-append :
      (p : A → Bool) (xs ys : List A) → select p (xs ++ ys) ≡ select p xs ++ select p ys
  select-append p [] ys = refl
  select-append p (x ∷ xs) ys = ground (arith, select-append p xs ys)

  pub length-select : (p : A → Bool) (xs : List A) → length (select p xs) ≡ count p xs
  length-select p [] = refl
  length-select p (x ∷ xs) = ground (arith, length-select p xs)

  pub count-append : (p : A → Bool) (xs ys : List A) → count p (xs ++ ys) ≡ count p xs + count p ys
  count-append p [] ys = omega arith
  count-append p (x ∷ xs) ys = ground (arith, count-append p xs ys)

  pub count-update :
      (q p : A → Bool) (f : A → A) (xs : List A)
      → ((x : A) → q (f x) ≡ q x)
      → count q (update p f xs) ≡ count q xs
  count-update q p f [] h = refl
  count-update q p f (x ∷ xs) h = ground (arith, h x, count-update q p f xs h)

  pub select_none : (p : A → Bool) (xs : List A) → ((x : A) → p x ≡ false) → select p xs ≡ []
  select_none p [] h = refl
  select_none p (x ∷ xs) h = ground (arith, h x, select_none p xs h)

  -- An update that a test does not see changes what the test finds by the update alone.
  pub find-update_any :
      (p q : A → Bool) (f : A → A) (xs : List A)
      → ((x : A) → p (f x) ≡ p x)
      → find p (update q f xs) ≡ Option.map (λ x. if q x then f x else x) (find p xs)
  find-update_any p q f [] h = refl
  find-update_any p q f (x ∷ xs) h = ground (arith, h x, find-update_any p q f xs h)

  -- What is there stays there through an insertion, and through an update of other columns.
  pub find-append-is_some :
      (p : A → Bool) (xs ys : List A)
      → is_some (find p xs) ≡ true
      → is_some (find p (xs ++ ys)) ≡ true
  find-append-is_some p [] ys h = cc
  find-append-is_some p (x ∷ xs) ys h = ground (arith, find-append-is_some p xs ys)

  pub find-update-is_some :
      (p q : A → Bool) (f : A → A) (xs : List A)
      → ((x : A) → p (f x) ≡ p x)
      → is_some (find p xs) ≡ true
      → is_some (find p (update q f xs)) ≡ true
  find-update-is_some p q f [] k h = h
  find-update-is_some p q f (x ∷ xs) k h = ground (arith, k x, find-update-is_some p q f xs k)
