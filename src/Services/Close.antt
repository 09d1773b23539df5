-- ===== src/Services/Close.antt =====
-- services/close.go: `CloseGroup`.
use expense_splitter.Prelude.{ℕ, List, [], ◌∷◌, map, length}
use expense_splitter.Prelude.Int.{ℤ, pos}
use expense_splitter.Prelude.Int64.{add64, sub64}
use expense_splitter.Prelude.Dict.{Dict, insert, get_or}
use expense_splitter.Types.ApiError.{new_server_error, new_not_found_error, new_conflict_error}
use expense_splitter.Types.Membership.{group_admin}
use expense_splitter.Types.Group.{group_open, group_closed, is_open}
use expense_splitter.Settlement.Allocations.{allocations_from_rows}
use expense_splitter.Settlement.Fair.{build_fair_shares}
use expense_splitter.Settlement.Plan.{MemberBalance, Transfer, compute_plan}
use expense_splitter.Store.{
  MembershipRow, SettlementSnapshot, group_status_audit, group_closed_audit,
}
use expense_splitter.Store.Action.{
  Action, pure, or_raise, raise_unless, run, exec, in_tx, for_each, ◌>>=◌, ◌>>◌,
}
use expense_splitter.Store.Groups.{lock_group, mark_group_closed, mark_group_settled}
use expense_splitter.Store.Memberships.{list_approved_members}
use expense_splitter.Store.Expenses.{
  sum_paid_by_member, sum_spend_by_category, list_expense_allocations,
}
use expense_splitter.Store.Settlement.{create_settlement_run, create_payment}
use expense_splitter.Store.Audit.{write_audit}
use expense_splitter.Services.Authz.{registered_caller, require_group_role}

-- `paid[r.PaidBy] = r.Total`
unfoldable pub paid_map : List (ℕ × ℤ) → Dict ℤ → Dict ℤ
paid_map [] paid = paid
paid_map ((paid_by, total) ∷ rows) paid = paid_map rows (insert paid_by total paid)

-- `for _, v := range paid { total += v }`
unfoldable pub total_paid : Dict ℤ → ℤ
total_paid [] = pos 0
total_paid ((k, v) ∷ paid) = add64 (total_paid paid) v

abbrev pub balance_of : Dict ℤ → Dict ℤ → MembershipRow → MemberBalance
balance_of paid fair m =
    let p = get_or paid m.id (pos 0) in
    let f = get_or fair m.user_id (pos 0) in
    record { user_id = m.user_id; paid = p; fair_share = f; net = sub64 p f }

abbrev pub balances : Dict ℤ → Dict ℤ → List MembershipRow → List MemberBalance
balances paid fair members = map (balance_of paid fair) members

pub record CloseResult : Type 0 where
  pub group_id : ℕ
  pub snapshot : SettlementSnapshot
  pub plan : List Transfer

-- The transaction from `MarkGroupClosed` on, once the snapshot and the plan are computed.
unfoldable pub store_plan : ℕ → ℕ → SettlementSnapshot → List Transfer → Action (Unit {0})
store_plan caller group_id snapshot plan = do
  exec (mark_group_closed group_id)
  run_id ← exec (create_settlement_run group_id caller snapshot)
  for_each plan λ t. exec (create_payment run_id group_id t.from t.to t.amount)
  elim plan [ [] ↦ exec (mark_group_settled group_id) | _ ↦ pure tt ]
  write_audit group_id caller "group.closed" (group_status_audit group_open)
      (group_closed_audit group_closed snapshot.total_spent (length plan))

-- The Go code has no error for a panic in `buildFairShares`; it would end the request without a
-- commit, and is an error here, as is a plan that runs out of rounds.
unfoldable pub close_open_group : ℕ → ℕ → Action CloseResult
close_open_group caller group_id = do
  member_rows ← exec (list_approved_members group_id)
  paid_rows ← exec (sum_paid_by_member group_id)
  spend_per_category ← exec (sum_spend_by_category group_id)
  alloc_rows ← exec (list_expense_allocations group_id)
  let members = map (λ m. m.0) member_rows
  let paid = paid_map paid_rows []
  fair ←
      or_raise new_server_error
        (build_fair_shares (map (λ m. m.user_id) members) (allocations_from_rows alloc_rows))
  plan ← or_raise new_server_error (compute_plan (balances paid fair members))
  let snapshot : SettlementSnapshot = record {
    total_spent = total_paid paid;
    member_count = length members;
    spend_per_category = spend_per_category;
    members = balances paid fair members;
  }
  store_plan caller group_id snapshot plan
  pure (record { group_id = group_id; snapshot = snapshot; plan = plan })

unfoldable pub close_group : ℕ → ℕ → Action CloseResult
close_group subject group_id = do
  caller ← registered_caller subject
  require_group_role caller group_id group_admin
  in_tx (do
    status ← run (lock_group group_id) (new_not_found_error "group not found")
    raise_unless (is_open status) (new_conflict_error "group is not open")
    close_open_group caller.user_id group_id)
