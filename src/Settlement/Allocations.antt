-- ===== src/Settlement/Allocations.antt =====
-- services/settlement.go: `expenseAllocation` and `allocationsFromRows`, with the row type of
-- database/repo/expenses.sql.go.
pub mod RoundTrip
use expense_splitter.Prelude.{ℕ, zero, suc, Option, none, some, List, [], ◌∷◌, ◌++◌, length}
use expense_splitter.Prelude.Int.{ℤ, pos}
use expense_splitter.Prelude.Dict.{Dict, lookup, insert}

-- `repo.ListExpenseAllocationsRow`: an expense joined with one of its shares, or with none.
pub record ListExpenseAllocationsRow : Type 0 where
  pub id : ℕ
  pub amount_baisa : ℤ
  pub user_id : Option ℕ
  pub weight : Option ℤ

pub record ExpenseAllocation : Type 0 where
  pub amount : ℤ
  pub users : List ℕ
  pub weights : List ℤ

-- `out[i] = f(out[i])`; the index that the code uses is always in range.
unfoldable pub modify_at {ℓ} : {A : Type ℓ} → (A → A) → ℕ → List A → List A
modify_at f i [] = []
modify_at f zero (x ∷ xs) = f x ∷ xs
modify_at f (suc i) (x ∷ xs) = x ∷ modify_at f i xs

-- The `append`s to `out[i].Users` and `out[i].Weights`; a missing weight counts as 1.
unfoldable pub add_participant : Option ℕ → Option ℤ → ExpenseAllocation → ExpenseAllocation
add_participant none weight a = a
add_participant (some user) none a = record a {
  users = a.users ++ user ∷ [];
  weights = a.weights ++ pos 1 ∷ [];
}
add_participant (some user) (some w) a = record a {
  users = a.users ++ user ∷ [];
  weights = a.weights ++ w ∷ [];
}

-- One round of the loop, on `out` and `idx`.
unfoldable pub add_row :
    ListExpenseAllocationsRow → List ExpenseAllocation × Dict ℕ → List ExpenseAllocation × Dict ℕ
add_row r (out, idx) = elim (lookup r.id idx) [
  | some i ↦ (modify_at (add_participant r.user_id r.weight) i out, idx)
  | none ↦
      let i = length out in
      let added = out ++ record { amount = r.amount_baisa; users = []; weights = [] } ∷ [] in
      (modify_at (add_participant r.user_id r.weight) i added, insert r.id i idx)
]

unfoldable pub add_rows :
    List ListExpenseAllocationsRow
    → List ExpenseAllocation × Dict ℕ
    → List ExpenseAllocation × Dict ℕ
add_rows [] st = st
add_rows (r ∷ rows) st = add_rows rows (add_row r st)

unfoldable pub allocations_from_rows : List ListExpenseAllocationsRow → List ExpenseAllocation
allocations_from_rows rows = (add_rows rows ([], [])).0
