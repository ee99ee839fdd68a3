-- ===== src/Tables/Order.antt =====
-- `ORDER BY`, `LIMIT` and `OFFSET`. Rows with equal keys keep the order of insertion, which is
-- one of the orders that the database may answer with: the statements of the program have no
-- tie-breaker, and the database may order such rows otherwise in each query.
pub mod Laws
pub mod Ties
use onecrawler_backend.Prelude.{ℕ, Bool, List, [], ◌∷◌, leb, if◌then◌else◌, take, drop, map}
use onecrawler_backend.Tables.{select, count}

module _ {ℓ} {A : Type ℓ} where
  -- puts a row before the first one that it goes ahead of
  unfoldable pub insert_by : (A → A → Bool) → A → List A → List A
  insert_by ahead x [] = x ∷ []
  insert_by ahead x (y ∷ ys) =
      let rest = y ∷ insert_by ahead x ys in if ahead x y then x ∷ y ∷ ys else rest

  unfoldable pub sort_by : (A → A → Bool) → List A → List A
  unfolding insert_by
  sort_by ahead [] = []
  sort_by ahead (x ∷ xs) = insert_by ahead x (sort_by ahead xs)

  -- `.order_by(key)`
  unfoldable pub order_by : (A → ℕ) → List A → List A
  unfolding insert_by sort_by
  order_by key = sort_by (λ x y. leb (key x) (key y))

  -- `.order_by(key.desc())`
  unfoldable pub order_by_desc : (A → ℕ) → List A → List A
  unfolding insert_by sort_by
  order_by_desc key = sort_by (λ x y. leb (key y) (key x))

-- The body of a list response.
pub record Page {ℓ} (A : Type ℓ) : Type ℓ where
  pub items : List A
  pub total : ℕ
  pub limit : ℕ
  pub offset : ℕ

-- the response that is made from a page
abbrev pub map_page {ℓ κ} : {A : Type ℓ} {B : Type κ} → (A → B) → Page A → Page B
map_page f page = record {
  items = map f page.items;
  total = page.total;
  limit = page.limit;
  offset = page.offset;
}

-- The two statements of a list handler, the count and the page, newest first.
unfoldable pub paginate {ℓ} : {A : Type ℓ} → (A → ℕ) → (A → Bool) → ℕ → ℕ → List A → Page A
paginate key matches limit offset rows = record {
  items = take limit (drop offset (order_by_desc key (select matches rows)));
  total = count matches rows;
  limit = limit;
  offset = offset;
}
