-- ===== src/Store/Rows.antt =====
-- What `WHERE`, `EXISTS`, `COUNT`, `UPDATE` and `ORDER BY` do with the rows of a table.
use expense_splitter.Prelude.{
  ℕ, zero, suc, map, length, Bool, false, ◌||◌, Option, none, some, List, [], ◌∷◌, if◌then◌else◌,
}
use expense_splitter.Prelude.Int.{ℤ, pos, negsuc}
use expense_splitter.Store.Action.{Reply, row, no_rows}

module _ {ℓ} {A : Type ℓ} where
  -- The first row that the test accepts: the keys are unique.
  unfoldable pub find : (A → Bool) → List A → Option A
  find test [] = none
  find test (x ∷ xs) = if test x then some x else find test xs

  -- `OFFSET` and `LIMIT`
  unfoldable pub skip_rows : ℕ → List A → List A
  skip_rows zero xs = xs
  skip_rows (suc n) [] = []
  skip_rows (suc n) (x ∷ xs) = skip_rows n xs

  unfoldable pub limit_rows : ℕ → List A → List A
  limit_rows zero xs = []
  limit_rows (suc n) [] = []
  limit_rows (suc n) (x ∷ xs) = x ∷ limit_rows n xs

  -- The same with `COUNT(*) OVER()`, the number of rows before the cut, as a column.
  abbrev page_rows : ℕ → ℕ → List A → List (A × ℕ)
  page_rows limit offset xs = map (λ x. (x, length xs)) (limit_rows limit (skip_rows offset xs))

  abbrev pub one : Option A → Reply A
  one none = no_rows
  one (some a) = row a

  unfoldable pub exists_row : (A → Bool) → List A → Bool
  exists_row test [] = false
  exists_row test (x ∷ xs) = test x || exists_row test xs

  unfoldable pub where_rows : (A → Bool) → List A → List A
  where_rows test [] = []
  where_rows test (x ∷ xs) = let rest = where_rows test xs in if test x then x ∷ rest else rest

  unfoldable pub count_rows : (A → Bool) → List A → ℕ
  count_rows test [] = 0
  count_rows test (x ∷ xs) = if test x then suc (count_rows test xs) else count_rows test xs

  -- `UPDATE ... SET ... WHERE ...`
  unfoldable pub update_rows : (A → Bool) → (A → A) → List A → List A
  update_rows test f [] = []
  update_rows test f (x ∷ xs) = (if test x then f x else x) ∷ update_rows test f xs

  unfoldable pub place_row : (A → A → Bool) → A → List A → List A
  place_row less x [] = x ∷ []
  place_row less x (y ∷ ys) = if less y x then y ∷ place_row less x ys else x ∷ y ∷ ys

  unfoldable pub order_by : (A → A → Bool) → List A → List A
  order_by less [] = []
  order_by less (x ∷ xs) = place_row less x (order_by less xs)

-- A page is refused when `LIMIT` or `OFFSET` is negative.
abbrev pub page_reply {ℓ} : {A : Type ℓ} → ℤ → ℤ → List A → Reply (List (A × ℕ))
page_reply (pos limit) (pos offset) xs = row (page_rows limit offset xs)
page_reply (pos limit) (negsuc n) xs = Reply.failed
page_reply (negsuc n) offset xs = Reply.failed

abbrev pub map_reply {ℓ κ} : {A : Type ℓ} {B : Type κ} → (A → B) → Reply A → Reply B
map_reply f (row a) = row (f a)
map_reply f no_rows = no_rows
map_reply f Reply.failed = Reply.failed
