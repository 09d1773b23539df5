-- ===== src/Tests/Deletion.antt =====
-- Deletions on a small database.
use expense_splitter.Prelude.{◌≡◌, refl, true, [], ◌∷◌}
use expense_splitter.Types.Principal.{Principal}
use expense_splitter.Store.{Db, GroupRow, ExpenseRow}
use expense_splitter.Store.Action.{World, try_run, in_tx, ◌>>=◌}
use expense_splitter.Store.Rows.{find, exists_row, where_rows}
use expense_splitter.Store.Users.{get_user_by_keycloak_id}
use expense_splitter.Store.Groups.{
  get_group_by_id, lock_group_status, group_has_history, delete_group,
}
use expense_splitter.Store.Memberships.{delete_group_memberships}
use expense_splitter.Store.Expenses.{lock_expense_for_update, soft_delete_expense}
use expense_splitter.Store.Audit.{create_audit_entry, write_audit, write_system_audit}
use expense_splitter.Services.Authz.{principal_by_keycloak_id, require_global_admin}
use expense_splitter.Services.Admin.{global_admin_caller, admin_delete_group}
use expense_splitter.Services.Expenses.{delete_expense}
use expense_splitter.Services.Deletion.Expense.{IsDeletable, with_deleted, delete_expense-Deletes}
use expense_splitter.Services.Deletion.Group.{IsErasable, without_group, admin_delete_group-Erases}
use expense_splitter.Tests.Data.{user, start, world, calm}

-- The admin deletes the dinner.
delete_expense-Deletes_example :
    (caller : Principal) × (e : ExpenseRow) × IsDeletable start 11 1 30 caller e
    × ((delete_expense 11 1 30 calm world).1.db ≡ with_deleted start 1 30 caller e.amount_baisa)
unfolding delete_expense principal_by_keycloak_id get_user_by_keycloak_id lock_group_status
    lock_expense_for_update soft_delete_expense write_audit create_audit_entry try_run in_tx ◌>>=◌
    find exists_row
delete_expense-Deletes_example = delete_expense-Deletes 11 1 30 calm world refl

-- A trip without expenses, and a global admin.
abbrev unused : Db
unused = record start {
  users = record (user 1 11) { is_global_admin = true } ∷ user 2 12 ∷ [];
  expenses = [];
}

abbrev unused_world : World
unused_world = record { db = unused; bucket = 0; tick = 0 }

admin_delete_group-Erases_example :
    (caller : Principal) × (g : GroupRow) × IsErasable unused 11 1 caller g
    × ((admin_delete_group 11 1 calm unused_world).1.db ≡ without_group unused 1 caller g.name)
unfolding admin_delete_group global_admin_caller require_global_admin principal_by_keycloak_id
    get_user_by_keycloak_id get_group_by_id group_has_history delete_group_memberships delete_group
    write_system_audit create_audit_entry try_run in_tx ◌>>=◌ find exists_row where_rows
admin_delete_group-Erases_example = admin_delete_group-Erases 11 1 calm unused_world refl
