-- ===== src/Services/Deletion.antt =====
-- What a deletion writes to the audit log, for the deletions of services/expenses.go and
-- services/admin.go.
pub mod Expense
pub mod Group
use expense_splitter.Prelude.{refl, [], ◌∷◌, ◌++◌}
use expense_splitter.Types.ApiError.{ApiError}
use expense_splitter.Store.{AuditRow, Db}
use expense_splitter.Store.Action.{run}
use expense_splitter.Store.Hoare.{Replies-if, Triple, Triple-run}
use expense_splitter.Store.Audit.{create_audit_entry}
use expense_splitter.Services.Frame.{Anywhere, anywhere}
use expense_splitter.Services.Readings.{Still}

-- The database with one more entry in the audit log.
abbrev pub with_entry : AuditRow → Db → Db
with_entry e db = record db { audit_log = db.audit_log ++ (e ∷ []) }

pub run_audit :
    (db1 : Db) (e : AuditRow) (x : ApiError)
    → Triple (Still db1) (run (create_audit_entry e) x) (λ u. Still (with_entry e db1)) Anywhere
unfolding create_audit_entry
run_audit db1 e x =
    Triple-run _ x (anywhere _)
      λ id now db h. rw h (Replies-if (λ u. Still (with_entry e db1)) _ tt db1 _ (λ k. refl))
