-- ===== src/Tests/AuditLog.antt =====
-- The pages of a small audit log: an offset of 2 ^ 32 wraps around to the first page.
use expense_splitter.Prelude.{◌≡◌, refl, some, [], ◌∷◌}
use expense_splitter.Prelude.Int.{ℤ, pos}
use expense_splitter.Store.{AuditRow, absent, expense_amount_audit}
use expense_splitter.Store.Action.{World, try_run, ◌>>=◌}
use expense_splitter.Store.Rows.{find, where_rows, skip_rows, limit_rows}
use expense_splitter.Store.Users.{get_user_by_keycloak_id}
use expense_splitter.Store.Memberships.{get_membership}
use expense_splitter.Store.Audit.{list_audit_entries}
use expense_splitter.Services.Admin.{last_count}
use expense_splitter.Services.Authz.{
  principal_by_keycloak_id, require_group_role, decide_group_role,
}
use expense_splitter.Services.AuditLog.{list_group_audit}
use expense_splitter.Prelude.Int32.{int32}
use expense_splitter.Types.ApiError.{ok}
use expense_splitter.Tests.Data.{start, calm}

abbrev entry : ℤ → AuditRow
entry n = record {
  group_id = some 1;
  actor_user_id = 1;
  action = "expense.amount_changed";
  before = absent;
  after = expense_amount_audit n;
}

abbrev log : World
log = record {
  db = record start { audit_log = entry (pos 1) ∷ entry (pos 2) ∷ entry (pos 3) ∷ [] };
  bucket = 0;
  tick = 0;
}

second_page :
    (list_group_audit 11 1 (pos 1) (pos 1) calm log).0
    ≡ ok (record { total = 3; limit = pos 1; offset = pos 1; items = entry (pos 2) ∷ [] })
unfolding list_group_audit list_audit_entries principal_by_keycloak_id get_user_by_keycloak_id
    require_group_role get_membership decide_group_role last_count try_run ◌>>=◌ find where_rows
    skip_rows limit_rows int32
second_page = refl

wrapped_offset :
    (list_group_audit 11 1 (pos 1) (pos 4294967296) calm log).0
    ≡ ok (record { total = 3; limit = pos 1; offset = pos 4294967296; items = entry (pos 1) ∷ [] })
unfolding list_group_audit list_audit_entries principal_by_keycloak_id get_user_by_keycloak_id
    require_group_role get_membership decide_group_role last_count try_run ◌>>=◌ find where_rows
    skip_rows limit_rows int32
wrapped_offset = refl
