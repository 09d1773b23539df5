-- ===== src/Store/Expenses.antt =====
-- database/repo/expenses.sql.go: the queries on the expenses and their shares, with the
-- constraints of the tables.
use Prim.Native.String.{String}
use expense_splitter.Prelude.{
  ℕ, Bool, true, false, not, ◌&&◌, ◌||◌, Option, none, some, List, [], ◌∷◌, ◌++◌, ◌==◌, ltb,
  if◌then◌else◌,
}
use expense_splitter.Prelude.Int.{ℤ, pos, ◌+ℤ◌, ltb_ℤ}
use expense_splitter.Prelude.Int64.{two_63}
use expense_splitter.Types.Expense.{
  ExpenseCategory, lodging, fuel, food, transport, other, SplitType,
}
use expense_splitter.Settlement.Allocations.{ListExpenseAllocationsRow}
use expense_splitter.Store.{ExpenseRow, ExpenseShareRow}
use expense_splitter.Store.Action.{Reply, row, no_rows, failed, Query, select}
use expense_splitter.Prelude.Int32.{is_int4}
use expense_splitter.Store.Rows.{find, exists_row, where_rows, update_rows, order_by}

-- The rows of a group that are not deleted.
abbrev pub is_live : ℕ → ExpenseRow → Bool
is_live group_id e = (e.group_id == group_id) && not e.deleted

-- The amount is positive, and `paid_by` is a membership of the group.
unfoldable pub create_expense : ℕ → ℕ → ℤ → ExpenseCategory → String → ℕ → SplitType → Query ℕ
create_expense group_id paid_by amount category description occurred_on split uuid now db =
    let e : ExpenseRow = record {
      id = uuid;
      group_id = group_id;
      paid_by = paid_by;
      amount_baisa = amount;
      category = category;
      description = description;
      occurred_on = occurred_on;
      split_type = split;
      deleted = false;
      created_at = now;
    } in
    if ltb_ℤ (pos 0) amount
      && exists_row (λ m. (m.group_id == group_id) && (m.id == paid_by)) db.memberships
      && not (exists_row (λ x. x.id == uuid) db.expenses)
    then (row uuid, record db { expenses = db.expenses ++ (e ∷ []) })
    else (failed, db)

-- The weight is positive, the expense and the user exist, and a user has one share.
unfoldable pub create_expense_share : ℕ → ℕ → ℤ → Query (Unit {0})
create_expense_share expense_id user_id weight uuid now db =
    let s : ExpenseShareRow = record {
      expense_id = expense_id;
      user_id = user_id;
      weight = weight;
    } in
    if ltb_ℤ (pos 0) weight
      && is_int4 weight
      && exists_row (λ e. e.id == expense_id) db.expenses
      && exists_row (λ u. u.id == user_id) db.users
      && not (
          exists_row (λ x. (x.expense_id == expense_id) && (x.user_id == user_id))
            db.expense_shares)
    then (row tt, record db { expense_shares = db.expense_shares ++ (s ∷ []) })
    else (failed, db)

abbrev allocation_row : ExpenseRow → Option ℕ → Option ℤ → ListExpenseAllocationsRow
allocation_row e user_id weight = record {
  id = e.id;
  amount_baisa = e.amount_baisa;
  user_id = user_id;
  weight = weight;
}

-- The rows of an expense in the `LEFT JOIN`: one for each share, or one without a share.
unfoldable pub join_shares : ExpenseRow → List ExpenseShareRow → List ListExpenseAllocationsRow
join_shares e [] = allocation_row e none none ∷ []
join_shares e (s ∷ []) = allocation_row e (some s.user_id) (some s.weight) ∷ []
join_shares e (s ∷ t ∷ shares) =
    allocation_row e (some s.user_id) (some s.weight) ∷ join_shares e (t ∷ shares)

unfoldable pub join_expenses :
    List ExpenseRow → List ExpenseShareRow → List ListExpenseAllocationsRow
join_expenses [] shares = []
join_expenses (e ∷ expenses) shares =
    join_shares e
      (order_by (λ s t. ltb s.user_id t.user_id) (where_rows (λ s. s.expense_id == e.id) shares))
    ++ join_expenses expenses shares

unfoldable pub list_expense_allocations : ℕ → Query (List ListExpenseAllocationsRow)
list_expense_allocations group_id = select λ db. row (
    join_expenses
      (order_by
        (λ d e. ltb d.created_at e.created_at || (d.created_at == e.created_at) && ltb d.id e.id)
        (where_rows (is_live group_id) db.expenses))
      db.expense_shares)

unfoldable pub user_has_expense_shares : ℕ → ℕ → Query Bool
user_has_expense_shares group_id user_id = select λ db. row (
    exists_row
      (λ s.
        (s.user_id == user_id)
        && exists_row (λ e. (e.id == s.expense_id) && is_live group_id e) db.expenses)
      db.expense_shares)

pub record LockExpenseForUpdateRow : Type 0 where
  pub amount_baisa : ℤ
  pub user_id : ℕ

-- The join with the membership that paid.
unfoldable pub lock_expense_for_update : ℕ → ℕ → Query LockExpenseForUpdateRow
lock_expense_for_update id group_id = select λ db.
    elim (find (λ e. (e.id == id) && is_live group_id e) db.expenses) [
      | none ↦ no_rows
      | some e ↦ elim (find (λ m. m.id == e.paid_by) db.memberships) [
        | none ↦ no_rows
        | some m ↦ row (record { amount_baisa = e.amount_baisa; user_id = m.user_id })
      ]
    ]

-- The amount stays positive.
unfoldable pub update_expense : ℤ → ExpenseCategory → String → ℕ → ℕ → Query (Unit {0})
update_expense amount category description occurred_on id uuid now db =
    let set : ExpenseRow → ExpenseRow = λ e. record e {
      amount_baisa = amount;
      category = category;
      description = description;
      occurred_on = occurred_on;
    } in
    elim (find (λ e. e.id == id) db.expenses) [
      | none ↦ (no_rows, db)
      | some e ↦
          if ltb_ℤ (pos 0) amount
          then (row tt, record db { expenses = update_rows (λ x. x.id == id) set db.expenses })
          else (failed, db)
    ]

unfoldable pub soft_delete_expense : ℕ → Query (Unit {0})
soft_delete_expense id uuid now db = (
  row tt,
  record db {
    expenses = update_rows (λ e. e.id == id) (λ e. record e { deleted = true }) db.expenses;
  },
)

-- `GROUP BY`: the total of every key, in the order in which the keys first come up.
unfoldable pub add_to_total {ℓ} :
    {A : Type ℓ} → (A → A → Bool) → A → ℤ → List (A × ℤ) → List (A × ℤ)
add_to_total same k amount [] = (k, amount) ∷ []
add_to_total same k amount ((j, total) ∷ totals) =
    if same j k
    then (j, total +ℤ amount) ∷ totals
    else (j, total) ∷ add_to_total same k amount totals

unfoldable pub totals_by {ℓ} :
    {A : Type ℓ} → (A → A → Bool) → (ExpenseRow → A) → List ExpenseRow → List (A × ℤ)
totals_by same key [] = []
totals_by same key (e ∷ expenses) =
    add_to_total same (key e) e.amount_baisa (totals_by same key expenses)

-- `::bigint` fails on a sum that no bigint holds.
unfoldable pub as_bigints {ℓ} : {A : Type ℓ} → List (A × ℤ) → Bool
as_bigints [] = true
as_bigints ((k, total) ∷ totals) = ltb_ℤ total (pos two_63) && as_bigints totals

abbrev pub same_category : ExpenseCategory → ExpenseCategory → Bool
same_category lodging lodging = true
same_category fuel fuel = true
same_category food food = true
same_category transport transport = true
same_category other other = true
same_category _ _ = false

abbrev cast_totals {ℓ} : {A : Type ℓ} → List (A × ℤ) → Reply (List (A × ℤ))
cast_totals totals = if as_bigints totals then row totals else failed

unfoldable pub sum_paid_by_member : ℕ → Query (List (ℕ × ℤ))
sum_paid_by_member group_id = select λ db.
    cast_totals
      (totals_by (λ j k. j == k) (λ e. e.paid_by) (where_rows (is_live group_id) db.expenses))

unfoldable pub sum_spend_by_category : ℕ → Query (List (ExpenseCategory × ℤ))
sum_spend_by_category group_id = select λ db.
    cast_totals
      (totals_by same_category (λ e. e.category) (where_rows (is_live group_id) db.expenses))
