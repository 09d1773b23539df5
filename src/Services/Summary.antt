-- ===== src/Services/Summary.antt =====
-- services/summary.go: the figures of a group, computed from the current expenses.
use Prim.Native.String.{String}
use expense_splitter.Prelude.{ℕ, List, [], ◌∷◌, map, length}
use expense_splitter.Prelude.Int.{ℤ, pos}
use expense_splitter.Prelude.Int64.{add64, sub64}
use expense_splitter.Prelude.Dict.{Dict, get_or}
use expense_splitter.Types.ApiError.{new_server_error, new_not_found_error}
use expense_splitter.Types.Membership.{member}
use expense_splitter.Types.Group.{GroupStatus}
use expense_splitter.Types.Expense.{ExpenseCategory}
use expense_splitter.Settlement.Allocations.{allocations_from_rows}
use expense_splitter.Settlement.Fair.{build_fair_shares}
use expense_splitter.Store.{MembershipRow}
use expense_splitter.Store.Action.{Action, pure, or_raise, run, exec, ◌>>=◌, ◌>>◌}
use expense_splitter.Store.Groups.{get_group_by_id, get_group_public_status}
use expense_splitter.Store.Memberships.{list_approved_members}
use expense_splitter.Store.Expenses.{
  sum_paid_by_member, sum_spend_by_category, list_expense_allocations,
}
use expense_splitter.Services.Authz.{registered_caller, require_group_role}
use expense_splitter.Services.Close.{paid_map}

pub record MemberSummary : Type 0 where
  pub user_id : ℕ
  pub email : String
  pub paid : ℤ
  pub fair_share : ℤ
  pub net : ℤ

pub record GroupSummary : Type 0 where
  pub group_id : ℕ
  pub name : String
  pub start_date : ℕ
  pub end_date : ℕ
  pub status : GroupStatus
  pub member_count : ℕ
  pub total_spent : ℤ
  pub spend_per_category : List (ExpenseCategory × ℤ)
  pub members : List MemberSummary

-- `total += r.Total` over the rows.
unfoldable pub total_of_rows : ℤ → List (ℕ × ℤ) → ℤ
total_of_rows total [] = total
total_of_rows total ((paid_by, amount) ∷ rows) = total_of_rows (add64 total amount) rows

abbrev pub summary_of : Dict ℤ → Dict ℤ → MembershipRow × String → MemberSummary
summary_of paid fair (m, email) =
    let p = get_or paid m.id (pos 0) in
    let f = get_or fair m.user_id (pos 0) in
    record { user_id = m.user_id; email = email; paid = p; fair_share = f; net = sub64 p f }

unfoldable pub group_summary : ℕ → ℕ → Action GroupSummary
group_summary subject group_id = do
  caller ← registered_caller subject
  require_group_role caller group_id member
  g ← run (get_group_by_id group_id) (new_not_found_error "group not found")
  members ← exec (list_approved_members group_id)
  paid_rows ← exec (sum_paid_by_member group_id)
  cat_rows ← exec (sum_spend_by_category group_id)
  alloc_rows ← exec (list_expense_allocations group_id)
  fair ←
      or_raise new_server_error
        (build_fair_shares (map (λ m. m.0.user_id) members) (allocations_from_rows alloc_rows))
  pure (record {
    group_id = g.id;
    name = g.name;
    start_date = g.start_date;
    end_date = g.end_date;
    status = g.status;
    member_count = length members;
    total_spent = total_of_rows (pos 0) paid_rows;
    spend_per_category = cat_rows;
    members = map (summary_of (paid_map paid_rows []) fair) members;
  })

pub record PublicGroupStatus : Type 0 where
  pub name : String
  pub status : GroupStatus
  pub total_spent : ℤ
  pub member_count : ℕ

-- The one view without an account.
unfoldable pub public_group_status : ℕ → Action PublicGroupStatus
public_group_status status_token = do
  r ← run (get_group_public_status status_token) (new_not_found_error "unknown group token")
  pure (record {
    name = r.0.name;
    status = r.0.status;
    total_spent = r.1.total_spent;
    member_count = r.1.member_count;
  })
