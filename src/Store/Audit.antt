-- ===== src/Store/Audit.antt =====
-- database/repo/audit.sql.go, and `auditEntry` and `writeAudit` of services/audit.go.
use Prim.Native.String.{String}
use expense_splitter.Prelude.{
  ℕ, Bool, List, true, ◌&&◌, Option, none, some, [], ◌∷◌, ◌++◌, ◌==◌, if◌then◌else◌,
}
use expense_splitter.Store.{AuditRow, AuditValue, absent, Db}
use expense_splitter.Store.Action.{row, failed, Query, Action, exec, select}
use expense_splitter.Store.Rows.{exists_row, where_rows, page_reply}
use expense_splitter.Prelude.Int.{ℤ}
use expense_splitter.Store.Groups.{is_of_group}

abbrev group_exists : Db → Option ℕ → Bool
group_exists db none = true
group_exists db (some id) = exists_row (λ g. g.id == id) db.groups

unfoldable pub create_audit_entry : AuditRow → Query (Unit {0})
create_audit_entry e uuid now db =
    if group_exists db e.group_id && exists_row (λ u. u.id == e.actor_user_id) db.users
    then (row tt, record db { audit_log = db.audit_log ++ (e ∷ []) })
    else (failed, db)

-- `writeAudit` for an event of a group; every error becomes a server error at the caller.
unfoldable pub write_audit : ℕ → ℕ → String → AuditValue → AuditValue → Action (Unit {0})
write_audit group_id actor action before after = exec (
    create_audit_entry (record {
      group_id = some group_id;
      actor_user_id = actor;
      action = action;
      before = before;
      after = after;
    }))

-- The same without a group, and without a value after.
unfoldable pub write_system_audit : ℕ → String → AuditValue → Action (Unit {0})
write_system_audit actor action before = exec (
    create_audit_entry (record {
      group_id = none;
      actor_user_id = actor;
      action = action;
      before = before;
      after = absent;
    }))

-- The log is in the order of its ids.
unfoldable pub list_audit_entries : ℕ → ℤ → ℤ → Query (List (AuditRow × ℕ))
list_audit_entries group_id limit offset =
    select
      λ db. page_reply limit offset (where_rows (λ e. is_of_group group_id e.group_id) db.audit_log)
