-- ===== src/Tests/Services.antt =====
-- Requests against a small database.
use expense_splitter.Prelude.{◌==◌, ◌≡◌, refl, Option, some, [], ◌∷◌, arith}
use expense_splitter.Prelude.Int.{pos}
use expense_splitter.Types.ApiError.{new_server_error}
use expense_splitter.Types.Group.{GroupStatus, group_closed}
use expense_splitter.Types.Expense.{food, RecordExpenseRequest, split_type, any_heavy}
use expense_splitter.Store.{Db}
use expense_splitter.Store.Action.{no_rows, try_run, in_tx, for_each, ◌>>=◌}
use expense_splitter.Store.Rows.{
  find, exists_row, where_rows, count_rows, update_rows, place_row, order_by,
}
use expense_splitter.Prelude.Int.{◌+ℤ◌, ◌-ℤ◌, ◌*ℤ◌, quot}
use expense_splitter.Prelude.Int32.{int32}
use expense_splitter.Prelude.Int64.{wrap64, add64, sub64, mul64, neg64, quot64}
use expense_splitter.Prelude.Dict.{lookup, insert, get_or}
use expense_splitter.Settlement.Shares.{weighted_shares, share_out, add_weights, allocate, spread}
use expense_splitter.Settlement.Allocations.{
  allocations_from_rows, add_rows, add_row, modify_at, add_participant,
}
use expense_splitter.Settlement.Fair.{
  build_fair_shares, add_allocations, add_allocation, add_shares, participants, start_at_zero,
}
use expense_splitter.Settlement.Plan.{
  accounts, debtor_less, creditor_less, insert_by, sort_by, advance, pay_amount, match_up,
  compute_plan,
}
use expense_splitter.Store.Users.{get_user_by_keycloak_id}
use expense_splitter.Store.Groups.{
  lock_group_for_expense, lock_group, mark_group_closed, mark_group_settled,
}
use expense_splitter.Store.Memberships.{
  get_membership, join_emails, with_email, list_approved_members,
}
use expense_splitter.Store.Expenses.{
  create_expense, create_expense_share, sum_paid_by_member, sum_spend_by_category,
  list_expense_allocations, join_expenses, join_shares, totals_by, add_to_total, as_bigints,
}
use expense_splitter.Store.Settlement.{
  transition_payment_row, create_settlement_run, create_payment,
}
use expense_splitter.Store.Audit.{create_audit_entry, write_audit}
use expense_splitter.Services.Authz.{
  principal_by_keycloak_id, require_group_role, decide_group_role,
}
use expense_splitter.Services.Close.{
  close_group, close_open_group, store_plan, paid_map, total_paid,
}
use expense_splitter.Types.Payment.{proof_submitted, creditor_confirmed, disputed, settled}
use expense_splitter.Services.Expenses.{record_expense, require_open_trip, require_participant}
use expense_splitter.Services.Recording.{IsRecorded, record_expense-Records}
use expense_splitter.Services.Closing.{IsClosedWith, close_group-Stores}
use expense_splitter.Services.Guard.{transition_payment_row-once}
use expense_splitter.Services.Request.{serve, close_request, reject_request, submit_proof_request}
use expense_splitter.Services.Atomic.{serve-rollback}
use expense_splitter.Services.GroupState.{IsConsistent, status_of}
use expense_splitter.Services.GroupState.Kept.{serve-final, idle, served, serve-IsConsistent}
use expense_splitter.Tests.Data.{
  dinner_result, start, world, calm, stormy, payment_in, with_payment, world_with,
}

abbrev status_after : Db → Option GroupStatus
status_after db = status_of 1 db.groups

-- The member owes half of the dinner to the admin.
close-run : status_after (serve 11 (close_request 1) calm world).1.db ≡ some group_closed
unfolding serve close_group principal_by_keycloak_id get_user_by_keycloak_id require_group_role
    get_membership decide_group_role lock_group close_open_group list_approved_members join_emails
    with_email sum_paid_by_member sum_spend_by_category list_expense_allocations join_expenses
    join_shares totals_by add_to_total as_bigints paid_map total_paid store_plan mark_group_closed
    mark_group_settled create_settlement_run create_payment write_audit create_audit_entry try_run
    in_tx for_each ◌>>=◌ find exists_row where_rows count_rows update_rows place_row order_by
    allocations_from_rows add_rows add_row modify_at add_participant lookup insert get_or
    build_fair_shares add_allocations add_allocation add_shares participants start_at_zero
    weighted_shares share_out add_weights allocate spread quot64 quot mul64 sub64 add64 wrap64
    compute_plan accounts debtor_less creditor_less insert_by sort_by advance pay_amount match_up
    neg64 ◌+ℤ◌ ◌-ℤ◌ ◌*ℤ◌
close-run = refl

-- The fifth call fails in the transaction, after the group was locked.
serve-rollback_example : (serve 11 (close_request 1) stormy world).1.db ≡ start
unfolding serve close_group principal_by_keycloak_id get_user_by_keycloak_id require_group_role
    get_membership decide_group_role lock_group close_open_group list_approved_members join_emails
    with_email sum_paid_by_member sum_spend_by_category list_expense_allocations join_expenses
    join_shares totals_by add_to_total as_bigints paid_map total_paid store_plan mark_group_closed
    mark_group_settled create_settlement_run create_payment write_audit create_audit_entry try_run
    in_tx for_each ◌>>=◌ find exists_row where_rows count_rows update_rows place_row order_by
    allocations_from_rows add_rows add_row modify_at add_participant lookup insert get_or
    build_fair_shares add_allocations add_allocation add_shares participants start_at_zero
    weighted_shares share_out add_weights allocate spread quot64 quot mul64 sub64 add64 wrap64
    compute_plan accounts debtor_less creditor_less insert_by sort_by advance pay_amount match_up
    neg64 ◌+ℤ◌ ◌-ℤ◌ ◌*ℤ◌
serve-rollback_example = serve-rollback 11 (close_request 1) stormy world new_server_error refl refl

start-IsConsistent : IsConsistent start
unfolding find count_rows
start-IsConsistent = ((λ id. ground arith), λ id. ground arith)

serve-IsConsistent_example :
    IsConsistent
      (serve 12
        (close_request 1)
        calm
        (record { db = (serve 11 (close_request 1) calm world).1.db; bucket = 0; tick = 0 })).1.db
serve-IsConsistent_example =
    serve-IsConsistent
      (served world 11 (close_request 1) calm (
        served (record { db = (serve 11 (close_request 1) calm world).1.db; bucket = 0; tick = 0 })
          12 (close_request 1) calm idle))
      start-IsConsistent

abbrev after_rejecting : Db
after_rejecting = (serve 11 (reject_request 40) calm (world_with settled)).1.db

serve-final_example :
    find
      (λ r. r.id == 40)
      (serve 12
        (submit_proof_request 40 "again")
        calm
        (record { db = after_rejecting; bucket = 0; tick = 0 })).1.db.payments
    ≡ some (payment_in settled)
unfolding find
serve-final_example = serve-final 40 (payment_in settled) refl refl (
    served (world_with settled) 11 (reject_request 40) calm (
      served (record { db = after_rejecting; bucket = 0; tick = 0 }) 12
        (submit_proof_request 40 "again") calm idle))

-- The creditor's confirmation against a dispute that read the same version.
transition_payment_row-once_example :
    transition_payment_row disputed 40 3 8 51
      (transition_payment_row creditor_confirmed 40 3 7 50 (with_payment proof_submitted)).1
    ≡ (
      no_rows,
      (transition_payment_row creditor_confirmed 40 3 7 50 (with_payment proof_submitted)).1,
    )
unfolding transition_payment_row find
transition_payment_row-once_example =
    transition_payment_row-once creditor_confirmed disputed 40 3 7 50 8 51
      (with_payment proof_submitted)
      (record (payment_in creditor_confirmed) { version = 4; updated_at = 50 }) refl

-- The member records snacks for both.
abbrev snacks_request : RecordExpenseRequest
snacks_request = record {
  amount_baisa = pos 900;
  category = food;
  description = "snacks";
  occurred_on = 15;
  shares = record { user_id = 1; weight = pos 1 } ∷ record { user_id = 2; weight = pos 2 } ∷ [];
}

record_expense-Records_example :
    IsRecorded start 12 1 snacks_request 106 (record_expense 12 1 snacks_request calm world).1.db
unfolding record_expense principal_by_keycloak_id get_user_by_keycloak_id get_membership
    lock_group_for_expense require_open_trip require_participant create_expense create_expense_share
    split_type any_heavy write_audit create_audit_entry try_run in_tx for_each ◌>>=◌ find exists_row
    int32
record_expense-Records_example = record_expense-Records 12 1 snacks_request calm world 106 refl

close_group-Stores_example : IsClosedWith start 1 dinner_result (close_group 11 1 calm world).1.db
unfolding close_group principal_by_keycloak_id get_user_by_keycloak_id require_group_role
    get_membership decide_group_role lock_group close_open_group list_approved_members join_emails
    with_email sum_paid_by_member sum_spend_by_category list_expense_allocations join_expenses
    join_shares totals_by add_to_total as_bigints paid_map total_paid store_plan mark_group_closed
    mark_group_settled create_settlement_run create_payment write_audit create_audit_entry try_run
    in_tx for_each ◌>>=◌ find exists_row where_rows count_rows update_rows place_row order_by
    allocations_from_rows add_rows add_row modify_at add_participant lookup insert get_or
    build_fair_shares add_allocations add_allocation add_shares participants start_at_zero
    weighted_shares share_out add_weights allocate spread quot64 quot mul64 sub64 add64 wrap64
    compute_plan accounts debtor_less creditor_less insert_by sort_by advance pay_amount match_up
    neg64 ◌+ℤ◌ ◌-ℤ◌ ◌*ℤ◌
close_group-Stores_example = close_group-Stores 11 1 calm world dinner_result refl
