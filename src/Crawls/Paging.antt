-- ===== src/Crawls/Paging.antt =====
-- The pages of the lists that api/v1/crawler/router.py answers with.
use Prim.Native.Nat.{min}
use onecrawler_backend.Prelude.{
  ℕ, ◌-◌, ◌≤◌, ◌&&◌, ◌≡◌, ◌∙◌, refl, ap, Bool, true, inl, inr, ◌⊎◌, Bool-cases, is_blank, str_eq,
  str_append, Option, none, some, String, List, ◌∷◌, ◌==◌, ==_iff, eq_iff, [], arith, leb, length,
  drop, length-take, length-drop, All, All-take, All-drop,
}
use onecrawler_backend.Tables.{select, count}
use onecrawler_backend.Tables.Laws.{length-select}
use onecrawler_backend.Tables.Order.{Page, paginate, order_by_desc}
use onecrawler_backend.Tables.Order.Laws.{
  IsNewestFirst, order_by_desc-All, order_by_desc-IsNewestFirst, take-IsNewestFirst,
  drop-IsNewestFirst, select-All, length-order_by_desc,
}
use onecrawler_backend.Exec.{ok}
use onecrawler_backend.Models.{Uuid, CrawlJob, status_text}
use onecrawler_backend.Backend.{Backend}
use onecrawler_backend.Crawls.Reading.{given, matches_list, list_crawls}

module _ {A : Type 0} (key : A → ℕ) (matches : A → Bool) (rows : List A) where
  -- A page is newest first, has only rows that match, and is as long as what is left allows.
  pub paginate-page :
      (limit offset : ℕ)
      → let page = paginate key matches limit offset rows in
        IsNewestFirst key page.items
        × All (λ x. matches x ≡ true) page.items
        × (length page.items ≡ min limit (page.total - offset))
  unfolding paginate
  paginate-page limit offset =
      let sorted = order_by_desc key (select matches rows) in
      let long : length sorted ≡ count matches rows =
        length-order_by_desc key (select matches rows) ∙ length-select matches rows in
      (
        take-IsNewestFirst key limit (drop offset sorted) (
            drop-IsNewestFirst key offset sorted
              (order_by_desc-IsNewestFirst key (select matches rows))),
        All-take _ limit (drop offset sorted) (
            All-drop _ offset sorted
              (order_by_desc-All _ key (select matches rows) (select-All matches rows))),
        length-take limit (drop offset sorted)
            ∙ ap (min limit) (length-drop offset sorted ∙ ap (λ k. k - offset) long),
      )

-- the status that a filter asks for, where a blank one asks for none
abbrev pub HasStatus : Option String → CrawlJob → Type 0
HasStatus none j = Unit
HasStatus (some text) j = (is_blank text ≡ true) ⊎ (status_text j.status ≡ text)

-- the total against the number of the user's jobs: all of them, unless there is a filter
abbrev pub IsTotal : Option String → Option String → ℕ → ℕ → Type 0
IsTotal none none total own = total ≡ own
IsTotal (some _) q total own = total ≤ own
IsTotal none (some _) total own = total ≤ own

module _ {A : Type 0} where
  All-imply : {P Q : A → Type 0} → ((x : A) → P x → Q x) → (xs : List A) → All P xs → All Q xs
  All-imply f [] h = tt
  All-imply f (x ∷ xs) h = (f x h.0, All-imply f xs h.1)

  count-same : {p q : A → Bool} → ((x : A) → p x ≡ q x) → (xs : List A) → count p xs ≡ count q xs
  count-same {p} {q} e [] = refl
  count-same {p} {q} e (x ∷ xs) = rw (e x, count-same e xs) refl

matches_list_all :
    (ilike : String → String → Bool) (user : Uuid) (j : CrawlJob)
    → matches_list ilike user none none j ≡ (j.user_id == user)
unfolding matches_list
matches_list_all ilike user j = ground arith

status_clause : (a b c : Bool) → (a && b && c) ≡ true → b ≡ true
status_clause a b c h = ground (arith, h)

matches_list_sound :
    (ilike : String → String → Bool) (user : Uuid) (status q : Option String) (j : CrawlJob)
    → matches_list ilike user status q j ≡ true
    → (j.user_id ≡ user) × HasStatus status j
unfolding matches_list
matches_list_sound ilike user none q j h = ((==_iff j.user_id user).0 (ground (arith, h)), tt)
matches_list_sound ilike user (some text) q j h = (
  (==_iff j.user_id user).0 (ground (arith, h)),
  elim (Bool-cases (is_blank text)) [
    | inl blank ↦ inl blank
    | inr e ↦ inr (
        (eq_iff (status_text j.status) text).0 (
          status_clause (j.user_id == user) (str_eq (status_text j.status) text)
            (given q (λ t. ilike j.target_url (str_append "%" (str_append t "%")))) (rw e at h)))
  ],
)

count_fewer :
    {A : Type 0} {p q : A → Bool}
    → ((x : A) → p x ≡ true → q x ≡ true)
    → (xs : List A) → count p xs ≤ count q xs
count_fewer f [] = omega arith
count_fewer {p = p} {q = q} f (x ∷ xs) =
    let rest = count_fewer {p = p} {q = q} f xs in
    elim (Bool-cases (p x)) [
      | inl e ↦ rw (e, f x e) (omega (arith, rest))
      | inr e ↦ elim (Bool-cases (q x)) [
        | inl k ↦ rw (e, k) (omega (arith, rest))
        | inr k ↦ rw (e, k) rest
      ]
    ]

matches_list_own :
    (ilike : String → String → Bool) (user : Uuid) (status q : Option String) (j : CrawlJob)
    → matches_list ilike user status q j ≡ true
    → (j.user_id == user) ≡ true
unfolding matches_list
matches_list_own ilike user status q j h = ground (arith, h)

matches_list-IsTotal :
    (ilike : String → String → Bool) (user : Uuid) (status q : Option String) (rows : List CrawlJob)
    → IsTotal status q
        (count (matches_list ilike user status q) rows)
        (count (λ j. j.user_id == user) rows)
matches_list-IsTotal ilike user none none rows = count-same (matches_list_all ilike user) rows
matches_list-IsTotal ilike user (some t) q rows =
    count_fewer (matches_list_own ilike user (some t) q) rows
matches_list-IsTotal ilike user none (some q) rows =
    count_fewer (matches_list_own ilike user none (some q)) rows

-- A list of jobs with an admissible limit answers, without a write, with jobs that all belong to the
-- user who asks and have the status that is asked for, if one is that is not blank, newest first, as
-- many as the limit and the total allow. Without filters the total is the number of the user's
-- jobs, and with filters it is no more.
pub list_crawls-page :
    (ilike : String → String → Bool) (user : Uuid) (status q : Option String) (limit offset : ℕ)
    (s : Backend)
    → (leb 1 limit && leb limit 100) ≡ true
    → (page : Page CrawlJob) × (list_crawls ilike user status q limit offset s ≡ (ok page, s))
      × IsNewestFirst (λ j. j.created_at) page.items
      × All (λ j. (j.user_id ≡ user) × HasStatus status j) page.items
      × IsTotal status q page.total (count (λ j. j.user_id == user) s.crawl_jobs)
      × (length page.items ≡ min limit (page.total - offset))
unfolding list_crawls paginate
list_crawls-page ilike user status q limit offset s admissible =
    let (order, matching, long) =
      paginate-page (λ (j : CrawlJob). j.created_at) (matches_list ilike user status q) s.crawl_jobs
        limit offset in
    (
      paginate (λ (j : CrawlJob). j.created_at) (matches_list ilike user status q) limit offset
          s.crawl_jobs,
      rw admissible,
      order,
      All-imply (matches_list_sound ilike user status q) _ matching,
      matches_list-IsTotal ilike user status q s.crawl_jobs,
      long,
    )
