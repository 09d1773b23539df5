-- ===== src/Services/Frame/Expenses.antt =====
-- The requests of services/expenses.go: a property of the groups, the memberships and the payments
-- stays.
use expense_splitter.Prelude.{ℕ, refl, Bool, true, false, if◌then◌else◌}
use expense_splitter.Prelude.Int.{eqb_ℤ}
use expense_splitter.Types.Expense.{RecordExpenseRequest, ShareInput}
use expense_splitter.Store.{Db}
use expense_splitter.Store.Action.{Action, pure, run}
use expense_splitter.Store.Hoare.{Pred, Triple, Triple-bind}
use expense_splitter.Store.Groups.{lock_group_for_expense, lock_group_status}
use expense_splitter.Store.Memberships.{get_membership}
use expense_splitter.Store.Expenses.{lock_expense_for_update, soft_delete_expense}
use expense_splitter.Services.Expenses.{
  require_open_trip, require_participant, record_expense, delete_expense, change_expense,
}
use expense_splitter.Services.Reads.{principal_by_keycloak_id-Reads}
use expense_splitter.Services.Frame.{
  Anywhere, Anywhere, Stable, Steady, anywhere, stays, run-Stable, write_audit-Stable, unless-Keeps,
  if-Keeps, done-Keeps, for_each-Keeps, tx-Keeps, create_expense-Steady,
  create_expense_share-Steady, update_expense-Steady,
}

module _ {P : Pred} (stable : Stable Steady P) where
  module _ {E : Pred} (pe : (db : Db) → P db → E db) where
    require_open_trip-Keeps :
        (group_id occurred_on : ℕ) → Triple P (require_open_trip group_id occurred_on) (λ u. P) E
    unfolding require_open_trip lock_group_for_expense
    require_open_trip-Keeps group_id occurred_on =
        Triple-bind
          (run-Stable stable pe (lock_group_for_expense occurred_on group_id) _
            λ id now db. (refl, refl, refl))
          λ g. Triple-bind (unless-Keeps pe _ _) λ u. unless-Keeps pe _ _

    membership-Keeps :
        (group_id user_id : ℕ) (e : _)
        → Triple P (run (get_membership group_id user_id) e) (λ m. P) E
    unfolding get_membership
    membership-Keeps group_id user_id e =
        run-Stable stable pe (get_membership group_id user_id) e λ id now db. (refl, refl, refl)

    require_participant-Keeps :
        (group_id : ℕ) (s : ShareInput) → Triple P (require_participant group_id s) (λ u. P) E
    unfolding require_participant
    require_participant-Keeps group_id s =
        Triple-bind (membership-Keeps group_id s.user_id _) λ m. unless-Keeps pe _ _

    lock_expense-Keeps :
        (id group_id : ℕ) (e : _)
        → Triple P (run (lock_expense_for_update id group_id) e) (λ m. P) E
    unfolding lock_expense_for_update
    lock_expense-Keeps x group_id e =
        run-Stable stable pe (lock_expense_for_update x group_id) e λ id now db. (refl, refl, refl)

  pub record_expense-Keeps :
      (subject group_id : ℕ) (req : RecordExpenseRequest)
      → Triple P (record_expense subject group_id req) (λ a. P) P
  unfolding record_expense
  record_expense-Keeps subject group_id req =
      Triple-bind (principal_by_keycloak_id-Reads subject _) λ caller. tx-Keeps (
        Triple-bind (require_open_trip-Keeps (anywhere _) group_id req.occurred_on) λ u.
          Triple-bind (membership-Keeps (anywhere _) group_id caller.user_id _) λ m.
            Triple-bind (unless-Keeps (anywhere _) _ _) λ u.
              Triple-bind
                (for_each-Keeps (require_participant-Keeps (anywhere _) group_id) req.shares)
                λ u.
                  Triple-bind
                    (run-Stable stable (anywhere _) _ _ (create_expense-Steady _ _ _ _ _ _ _))
                    λ created.
                      Triple-bind
                        (for_each-Keeps
                          (λ s.
                            run-Stable stable (anywhere _) _ _ (create_expense_share-Steady _ _ _))
                          req.shares)
                        λ u.
                          Triple-bind (write_audit-Stable stable (anywhere _) _ _ _ _ _)
                            λ u. done-Keeps created)

  pub delete_expense-Keeps :
      (subject group_id expense_id : ℕ)
      → Triple P (delete_expense subject group_id expense_id) (λ a. P) P
  unfolding delete_expense lock_group_status soft_delete_expense
  delete_expense-Keeps subject group_id expense_id =
      Triple-bind (principal_by_keycloak_id-Reads subject _) λ caller. tx-Keeps (
        Triple-bind
          (run-Stable stable (anywhere _) (lock_group_status group_id) _
            λ id now db. (refl, refl, refl))
          λ s. Triple-bind (unless-Keeps (anywhere _) _ _) λ u.
            Triple-bind (lock_expense-Keeps (anywhere _) expense_id group_id _) λ old.
              Triple-bind (unless-Keeps (anywhere _) _ _) λ u.
                Triple-bind
                  (run-Stable stable (anywhere _) (soft_delete_expense expense_id) _
                    λ id now db. (refl, refl, refl))
                  λ u. write_audit-Stable stable (anywhere _) _ _ _ _ _)

  audit_unless-Keeps :
      (b : Bool) (m : Action (Unit {0}))
      → Triple P m (λ u. P) Anywhere
      → Triple P (if b then pure tt else m) (λ u. P) Anywhere
  audit_unless-Keeps true m h = done-Keeps tt
  audit_unless-Keeps false m h = h

  pub change_expense-Keeps :
      (subject group_id expense_id : ℕ) (req : RecordExpenseRequest)
      → Triple P (change_expense subject group_id expense_id req) (λ a. P) P
  unfolding change_expense
  change_expense-Keeps subject group_id expense_id req = Triple-bind (if-Keeps (stays _) _ _) λ u.
      Triple-bind (principal_by_keycloak_id-Reads subject _) λ caller. tx-Keeps (
        Triple-bind (require_open_trip-Keeps (anywhere _) group_id req.occurred_on) λ u.
          Triple-bind (lock_expense-Keeps (anywhere _) expense_id group_id _) λ old.
            Triple-bind (unless-Keeps (anywhere _) _ _) λ u.
              Triple-bind (run-Stable stable (anywhere _) _ _ (update_expense-Steady _ _ _ _ _))
                λ u.
                  audit_unless-Keeps (eqb_ℤ req.amount_baisa old.amount_baisa) _
                    (write_audit-Stable stable (anywhere _) _ _ _ _ _))
