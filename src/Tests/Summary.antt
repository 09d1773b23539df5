-- ===== src/Tests/Summary.antt =====
-- The summary of the trip against its close.
use expense_splitter.Prelude.{◌≡◌, ◌*◌, refl, [], ◌∷◌}
use expense_splitter.Prelude.Int.{negsuc, pos}
use expense_splitter.Types.Group.{group_open}
use expense_splitter.Types.Expense.{food}
use expense_splitter.Store.Action.{try_run, in_tx, for_each, ◌>>=◌}
use expense_splitter.Store.Rows.{
  find, exists_row, where_rows, count_rows, update_rows, place_row, order_by,
}
use expense_splitter.Prelude.Int.{◌+ℤ◌, ◌-ℤ◌, ◌*ℤ◌, quot}
use expense_splitter.Prelude.Int64.{wrap64, add64, sub64, mul64, neg64, quot64}
use expense_splitter.Prelude.Dict.{lookup, insert, get_or}
use expense_splitter.Settlement.Shares.{weighted_shares, share_out, add_weights, allocate, spread}
use expense_splitter.Settlement.Allocations.{
  allocations_from_rows, add_rows, add_row, modify_at, add_participant,
}
use expense_splitter.Settlement.Fair.{
  build_fair_shares, add_allocations, add_allocation, add_shares, participants, start_at_zero,
}
use expense_splitter.Settlement.Plan.{
  accounts, debtor_less, creditor_less, insert_by, sort_by, advance, pay_amount, match_up,
  compute_plan,
}
use expense_splitter.Store.Users.{get_user_by_keycloak_id}
use expense_splitter.Store.Groups.{lock_group, mark_group_closed, mark_group_settled}
use expense_splitter.Store.Memberships.{get_membership}
use expense_splitter.Store.Expenses.{
  sum_paid_by_member, sum_spend_by_category, list_expense_allocations, join_expenses, join_shares,
  totals_by, add_to_total, as_bigints,
}
use expense_splitter.Store.Settlement.{create_settlement_run, create_payment}
use expense_splitter.Store.Audit.{create_audit_entry, write_audit}
use expense_splitter.Services.Authz.{
  principal_by_keycloak_id, require_group_role, decide_group_role,
}
use expense_splitter.Services.Close.{
  close_group, close_open_group, store_plan, paid_map, total_paid,
}
use expense_splitter.Tests.Data.{dinner_result, world, calm}
use expense_splitter.Services.Summary.{GroupSummary, group_summary, total_of_rows}
use expense_splitter.Store.Settlement.{get_settlement_snapshot}
use expense_splitter.Store.Action.{row}
use expense_splitter.Services.Figures.{Agrees, group_summary-Agrees}
use expense_splitter.Store.Groups.{get_group_by_id}
use expense_splitter.Store.Memberships.{list_approved_members, join_emails, with_email}

abbrev dinner_summary : GroupSummary
dinner_summary = record {
  group_id = 1;
  name = "trip";
  start_date = 10 * 86400;
  end_date = 20 * 86400;
  status = group_open;
  member_count = 2;
  total_spent = pos 3001;
  spend_per_category = (food, pos 3001) ∷ [];
  members =
      record {
        user_id = 1;
        email = "a@example.com";
        paid = pos 3001;
        fair_share = pos 1501;
        net = pos 1500;
      }
      ∷ record {
        user_id = 2;
        email = "a@example.com";
        paid = pos 0;
        fair_share = pos 1500;
        net = negsuc 1499;
      }
      ∷ [];
}

-- The member asks for the summary on a calm day, and the admin closes the group.
group_summary-Agrees_example :
    Agrees dinner_summary dinner_result.snapshot
    × ((get_settlement_snapshot 1 0 0 (close_group 11 1 calm world).1.db).0
        ≡ row dinner_result.snapshot)
unfolding get_settlement_snapshot group_summary get_group_by_id list_approved_members join_emails
    with_email total_of_rows close_group principal_by_keycloak_id get_user_by_keycloak_id
    require_group_role get_membership decide_group_role lock_group close_open_group
    sum_paid_by_member sum_spend_by_category list_expense_allocations join_expenses join_shares
    totals_by add_to_total as_bigints paid_map total_paid store_plan mark_group_closed
    mark_group_settled create_settlement_run create_payment write_audit create_audit_entry try_run
    in_tx for_each ◌>>=◌ find exists_row where_rows count_rows update_rows place_row order_by
    allocations_from_rows add_rows add_row modify_at add_participant lookup insert get_or
    build_fair_shares add_allocations add_allocation add_shares participants start_at_zero
    weighted_shares share_out add_weights allocate spread quot64 quot mul64 sub64 add64 wrap64
    compute_plan accounts debtor_less creditor_less insert_by sort_by advance pay_amount match_up
    neg64 ◌+ℤ◌ ◌-ℤ◌ ◌*ℤ◌
group_summary-Agrees_example =
    group_summary-Agrees 1 12 11 calm calm world world dinner_summary dinner_result refl refl refl
