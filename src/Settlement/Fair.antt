-- ===== src/Settlement/Fair.antt =====
-- services/settlement.go: `buildFairShares`.
pub mod Owed
pub mod Total
use expense_splitter.Prelude.{ℕ, ◌≡◌, Option, none, some, List, [], ◌∷◌, length, replicate}
use expense_splitter.Prelude.Int.{ℤ, pos}
use expense_splitter.Prelude.Int64.{add64}
use expense_splitter.Prelude.Bind.{◌>>=◌}
use expense_splitter.Prelude.Dict.{Dict, insert, get_or}
use expense_splitter.Settlement.Shares.{weighted_shares}
use expense_splitter.Settlement.Allocations.{ExpenseAllocation}

-- `for _, id := range memberIDs { fair[id] = 0 }`
unfoldable pub start_at_zero : List ℕ → Dict ℤ → Dict ℤ
start_at_zero [] fair = fair
start_at_zero (id ∷ member_ids) fair = start_at_zero member_ids (insert id (pos 0) fair)

-- `for i, u := range users { fair[u] += shares[i] }`; `none` is the panic of an index out of range.
unfoldable pub add_shares : List ℕ → List ℤ → Dict ℤ → Option (Dict ℤ)
add_shares [] shares fair = some fair
add_shares (u ∷ users) [] fair = none
add_shares (u ∷ users) (s ∷ shares) fair =
    add_shares users shares (insert u (add64 (get_or fair u (pos 0)) s) fair)

-- The participants and weights of an expense; with no named ones, every member with weight 1.
unfoldable pub participants : List ℕ → ExpenseAllocation → List ℕ × List ℤ
participants member_ids a = elim a.users [
  | [] ↦ (member_ids, replicate (length member_ids) (pos 1))
  | _ ↦ (a.users, a.weights)
]

unfoldable pub add_allocation : List ℕ → ExpenseAllocation → Dict ℤ → Option (Dict ℤ)
add_allocation member_ids a fair =
    let (users, weights) = participants member_ids a in
    add_shares users (weighted_shares a.amount weights) fair

-- `for _, a := range allocs`
unfoldable pub add_allocations : List ℕ → List ExpenseAllocation → Dict ℤ → Option (Dict ℤ)
add_allocations member_ids [] fair = some fair
add_allocations member_ids (a ∷ allocs) fair = do
  fair' ← add_allocation member_ids a fair
  add_allocations member_ids allocs fair'

unfoldable pub build_fair_shares : List ℕ → List ExpenseAllocation → Option (Dict ℤ)
build_fair_shares member_ids allocs =
    add_allocations member_ids allocs (start_at_zero member_ids [])
