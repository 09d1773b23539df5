-- ===== src/Services/Expenses.antt =====
-- services/expenses.go: the requests that record, change and delete an expense. A response is
-- left out, except for the id of a new expense.
use expense_splitter.Prelude.{ℕ, none, some, ◌==◌, if◌then◌else◌}
use expense_splitter.Prelude.Int.{eqb_ℤ}
use expense_splitter.Prelude.Int32.{int32}
use expense_splitter.Types.ApiError.{
  new_bad_request_error, new_forbidden_error, new_not_found_error, new_conflict_error,
}
use expense_splitter.Types.Membership.{is_approved}
use expense_splitter.Types.Group.{is_open}
use expense_splitter.Types.Expense.{ShareInput, RecordExpenseRequest, split_type, has_shares}
use expense_splitter.Store.{absent, expense_audit, expense_amount_audit}
use expense_splitter.Store.Action.{
  Action, pure, raise_if, raise_unless, run, exec, in_tx, for_each, ◌>>=◌, ◌>>◌,
}
use expense_splitter.Store.Groups.{lock_group_for_expense, lock_group_status}
use expense_splitter.Store.Memberships.{get_membership}
use expense_splitter.Store.Expenses.{
  create_expense, create_expense_share, lock_expense_for_update, update_expense,
  soft_delete_expense,
}
use expense_splitter.Store.Audit.{write_audit}
use expense_splitter.Services.Authz.{registered_caller}

-- The lock of the group, its status and the dates of the trip.
unfoldable pub require_open_trip : ℕ → ℕ → Action (Unit {0})
require_open_trip group_id occurred_on = do
  g ← run (lock_group_for_expense occurred_on group_id) (new_not_found_error "group not found")
  raise_unless (is_open g.status) (new_conflict_error "group is not open")
  raise_unless g.in_range (new_bad_request_error "occurred_on is outside the trip dates")

-- A participant is an approved member of the group.
unfoldable pub require_participant : ℕ → ShareInput → Action (Unit {0})
require_participant group_id s = do
  m ←
      run (get_membership group_id s.user_id)
        (new_bad_request_error "shares[].user_id must be a member of this group")
  raise_unless (is_approved m.status)
      (new_bad_request_error "shares[].user_id must be an approved member")

unfoldable pub record_expense : ℕ → ℕ → RecordExpenseRequest → Action ℕ
record_expense subject group_id req = do
  caller ← registered_caller subject
  in_tx (do
    require_open_trip group_id req.occurred_on
    m ←
        run (get_membership group_id caller.user_id)
          (new_forbidden_error "you are not a member of this group")
    raise_unless (is_approved m.status) (new_forbidden_error "your membership is not approved")
    for_each req.shares (require_participant group_id)
    created ← exec (
        create_expense group_id m.id req.amount_baisa req.category req.description req.occurred_on
          (split_type req))
    for_each req.shares λ s. exec (create_expense_share created s.user_id (int32 s.weight))
    write_audit group_id caller.user_id "expense.created" absent
        (expense_audit created req.amount_baisa (some req.category) (some req.occurred_on))
    pure created)

unfoldable pub delete_expense : ℕ → ℕ → ℕ → Action (Unit {0})
delete_expense subject group_id expense_id = do
  caller ← registered_caller subject
  in_tx (do
    status ← run (lock_group_status group_id) (new_not_found_error "group not found")
    raise_unless (is_open status) (new_conflict_error "group is not open")
    old ←
        run (lock_expense_for_update expense_id group_id) (new_not_found_error "expense not found")
    raise_unless (old.user_id == caller.user_id)
        (new_forbidden_error "you can only delete your own expenses")
    exec (soft_delete_expense expense_id)
    write_audit group_id caller.user_id "expense.deleted"
        (expense_audit expense_id old.amount_baisa none none) absent)

unfoldable pub change_expense : ℕ → ℕ → ℕ → RecordExpenseRequest → Action (Unit {0})
change_expense subject group_id expense_id req = do
  raise_if (has_shares req) (
      new_bad_request_error
        "shares cannot be changed after recording — delete and re-record the expense")
  caller ← registered_caller subject
  in_tx (do
    require_open_trip group_id req.occurred_on
    old ←
        run (lock_expense_for_update expense_id group_id) (new_not_found_error "expense not found")
    raise_unless (old.user_id == caller.user_id)
        (new_forbidden_error "you can only edit your own expenses")
    exec (update_expense req.amount_baisa req.category req.description req.occurred_on expense_id)
    if eqb_ℤ req.amount_baisa old.amount_baisa
        then pure tt
        else write_audit group_id caller.user_id "expense.amount_changed"
            (expense_amount_audit old.amount_baisa) (expense_amount_audit req.amount_baisa))
