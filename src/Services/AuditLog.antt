-- ===== src/Services/AuditLog.antt =====
-- `ListGroupAudit` of services/audit.go.
use expense_splitter.Prelude.{ℕ}
use expense_splitter.Prelude.Int.{ℤ}
use expense_splitter.Prelude.Int32.{int32}
use expense_splitter.Types.Membership.{group_admin}
use expense_splitter.Store.{AuditRow}
use expense_splitter.Store.Action.{Action, pure, exec, ◌>>=◌, ◌>>◌}
use expense_splitter.Store.Audit.{list_audit_entries}
use expense_splitter.Services.Authz.{registered_caller, require_group_role}
use expense_splitter.Services.Admin.{Page, page_of}

unfoldable pub list_group_audit : ℕ → ℕ → ℤ → ℤ → Action (Page AuditRow)
list_group_audit subject group_id limit offset = do
  caller ← registered_caller subject
  require_group_role caller group_id group_admin
  rows ← exec (list_audit_entries group_id (int32 limit) (int32 offset))
  pure (page_of limit offset rows)
