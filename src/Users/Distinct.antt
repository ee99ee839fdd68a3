-- ===== src/Users/Distinct.antt =====
-- The addresses and ids of accounts under api/users/register/router.py and `change_email` of
-- api/users/account/router.py.
use mathlib.Core.Path.{subst}
use onecrawler_backend.Prelude.{
  ◌+◌, ◌≤◌, ◌≡◌, refl, sym, inl, inr, String, Bool, true, false, not, ◌&&◌, none, some, List, [],
  ◌∷◌, arith, ◌==◌, ==_iff, str_eq, eq_iff, Bool-cases, Option-cases, if◌then◌else◌,
}
use onecrawler_backend.Tables.{find, update, insert, count}
use onecrawler_backend.Tables.Laws.{count-append, count-update}
use onecrawler_backend.Models.{Uuid, Users}
use onecrawler_backend.Backend.{Backend}
use onecrawler_backend.Auth.{PasswordHasher, user_by_id, verify_password}
use onecrawler_backend.Users.Register.{RegisterRequest, register, new_user, user_by_email}
use onecrawler_backend.Users.Account.{ChangeEmailRequest, change_email, is_another}

abbrev pub has_email : String → Users → Bool
has_email e u = str_eq u.email e

abbrev pub is_user : Uuid → Users → Bool
is_user id u = u.id == id

-- No address and no id stands in two rows.
abbrev pub AreDistinct : List Users → Type 0
AreDistinct users =
    ((e : String) → count (has_email e) users ≤ 1) × ((id : Uuid) → count (is_user id) users ≤ 1)

module _ {A : Type 0} where
  count-find-none : (p : A → Bool) (xs : List A) → find p xs ≡ none → count p xs ≡ 0
  count-find-none p [] h = refl
  count-find-none p (x ∷ xs) h = ground (arith, count-find-none p xs)

  count-and_less : (p q : A → Bool) (xs : List A) → count (λ x. p x && q x) xs ≤ count p xs
  count-and_less p q [] = omega arith
  count-and_less p q (x ∷ xs) = ground (arith, count-and_less p q xs)

  -- If the one row that matches has another property, none matches without it.
  count-find_only :
      (p q : A → Bool) (xs : List A) {a : A}
      → find p xs ≡ some a
      → q a ≡ true
      → count p xs ≤ 1
      → count (λ x. p x && not (q x)) xs ≡ 0
  count-find_only p q [] f h l = refl
  count-find_only p q (x ∷ xs) {a} f h l = elim (Bool-cases (p x)) [
    | inl e ↦
        let here : q x ≡ true = ground (arith, e, f, h) in
        let less = count-and_less p (λ y. not (q y)) xs in ground (arith, e, here, l, less)
    | inr e ↦
        let found : find p xs ≡ some a = ground (arith, e, f) in
        let rest = count-find_only p q xs {a = a} found h (ground (arith, e, l)) in
        ground (arith, e, rest)
  ]

-- An insertion of a row whose key no other row has.
count-insert :
    (p : Users → Bool) (user : Users) (users : List Users)
    → (p user ≡ true → count p users ≡ 0)
    → count p users ≤ 1
    → count p (insert user users) ≤ 1
count-insert p user users fresh l = ground (arith, count-append p users (user ∷ []), fresh)

abbrev with_email : String → Users → Users
with_email e u = record u { email = e }

-- The rows with an address after one row was given it.
count-with_email :
    (e new : String) (id : Uuid) (users : List Users)
    → count (has_email e) (update (is_user id) (with_email new) users)
      ≤ count (λ u. has_email e u && not (is_user id u)) users
        + (if str_eq new e then count (is_user id) users else 0)
count-with_email e new id [] = ground arith
count-with_email e new id (u ∷ users) = ground (arith, count-with_email e new id users)

-- A registration under an id that no account has keeps every address and every id in one account
-- at most, whether it is accepted or refused.
pub register-AreDistinct :
    (hasher : PasswordHasher) (payload : RegisterRequest) (new_id : Uuid) (s : Backend)
    → user_by_id new_id s ≡ none
    → AreDistinct s.users
    → AreDistinct (register hasher payload new_id s).1.users
unfolding register
register-AreDistinct hasher payload new_id s fresh (emails, ids) =
    elim (Option-cases (user_by_email payload.email s)) [
      | inr (u, f) ↦ rw f (emails, ids)
      | inl n ↦
          let user = new_user hasher payload new_id in
          rw n (
            (λ e.
                count-insert (has_email e) user s.users
                  (λ same.
                    rw (sym ((eq_iff payload.email e).0 same))
                      (count-find-none (has_email payload.email) s.users n))
                  (emails e)),
            (λ id.
                count-insert (is_user id) user s.users
                  (λ same.
                    rw (sym ((==_iff new_id id).0 same))
                      (count-find-none (is_user new_id) s.users fresh))
                  (ids id)),
          )
    ]

-- A new address that no other row has leaves every address in one row at most.
with_email-distinct :
    (new : String) (id : Uuid) (users : List Users)
    → AreDistinct users
    → is_another (find (has_email new) users) id ≡ false
    → AreDistinct (update (is_user id) (with_email new) users)
with_email-distinct new id users (emails, ids) free =
    let others : count (λ u. has_email new u && not (is_user id u)) users ≡ 0 =
      elim (Option-cases (find (has_email new) users)) [
        | inl n ↦
            let less = count-and_less (has_email new) (λ u. not (is_user id u)) users in
            let zero = count-find-none (has_email new) users n in omega (arith, less, zero)
        | inr (u, f) ↦
            count-find_only (has_email new) (is_user id) users f (ground (arith, f, free))
              (emails new)
      ] in
    (
      (λ e.
          let bound = count-with_email e new id users in
          let less = count-and_less (has_email e) (λ u. not (is_user id u)) users in
          elim (Bool-cases (str_eq new e)) [
            | inl same ↦
                let none_left =
                  subst (λ x. count (λ u. has_email x u && not (is_user id u)) users ≡ 0)
                    ((eq_iff new e).0 same) others in
                ground (arith, same, bound, none_left, ids id)
            | inr other ↦ ground (arith, other, bound, less, emails e)
          ]),
      (λ i. rw (count-update (is_user i) (is_user id) (with_email new) users (λ u. refl)) (ids i)),
    )

-- A change of an e-mail address keeps every address and every id in one account at most, whether
-- it is accepted or refused.
pub change_email-AreDistinct :
    (hasher : PasswordHasher) (user_id : Uuid) (payload : ChangeEmailRequest) (s : Backend)
    → AreDistinct s.users
    → AreDistinct (change_email hasher user_id payload s).1.users
unfolding change_email verify_password
change_email-AreDistinct hasher user_id payload s h = elim (Option-cases (user_by_id user_id s)) [
  | inl n ↦ rw n h
  | inr (u, f) ↦ elim (Bool-cases (verify_password hasher payload.password u.hashed_password)) [
    | inr n ↦ rw (f, n) h
    | inl v ↦ elim (Bool-cases (is_another (user_by_email payload.email s) u.id)) [
      | inl n ↦ rw (f, v, n) h
      | inr free ↦ rw (f, v, free) (with_email-distinct payload.email u.id s.users h free)
    ]
  ]
]
