-- ===== src/Services/Atomic/Money.antt =====
-- What the requests of services/payments.go, proofs.go, close.go and expenses.go leave when they
-- fail.
use expense_splitter.Prelude.{ℕ, List}
use expense_splitter.Types.Membership.{group_admin}
use expense_splitter.Types.Expense.{RecordExpenseRequest}
use expense_splitter.Store.Action.{Action}
use expense_splitter.Store.Hoare.{Pred, Triple, Triple-bind, Triple-asks}
use expense_splitter.Services.Payments.{transition_payment}
use expense_splitter.Services.Close.{close_group}
use expense_splitter.Services.Expenses.{record_expense, delete_expense, change_expense}
use expense_splitter.Services.Proofs.{submit_image_proof}
use expense_splitter.Payment.{PaymentAction}
use expense_splitter.Services.Reads.{
  Anything, principal_by_keycloak_id-Reads, require_group_role-Reads, in_tx-Atomic, caller-Reads,
  unless-Reads, if-Reads,
}

module _ {P : Pred} where
  pub transition_payment-Atomic :
      (subject payment : ℕ) (action : PaymentAction) (side : Action (Unit {0}))
      → Triple P (transition_payment subject payment action side) Anything P
  unfolding transition_payment
  transition_payment-Atomic subject payment action side =
      Triple-bind (principal_by_keycloak_id-Reads subject _) (λ caller. in_tx-Atomic _)

  pub close_group-Atomic :
      (subject group_id : ℕ) → Triple P (close_group subject group_id) Anything P
  unfolding close_group
  close_group-Atomic subject group_id = Triple-bind (caller-Reads subject) λ caller.
      Triple-bind (require_group_role-Reads caller group_id group_admin) λ u. in_tx-Atomic _

  pub record_expense-Atomic :
      (subject group_id : ℕ) (req : RecordExpenseRequest)
      → Triple P (record_expense subject group_id req) Anything P
  unfolding record_expense
  record_expense-Atomic subject group_id req =
      Triple-bind (caller-Reads subject) (λ caller. in_tx-Atomic _)

  pub delete_expense-Atomic :
      (subject group_id expense_id : ℕ)
      → Triple P (delete_expense subject group_id expense_id) Anything P
  unfolding delete_expense
  delete_expense-Atomic subject group_id expense_id =
      Triple-bind (caller-Reads subject) (λ caller. in_tx-Atomic _)

  pub change_expense-Atomic :
      (subject group_id expense_id : ℕ) (req : RecordExpenseRequest)
      → Triple P (change_expense subject group_id expense_id req) Anything P
  unfolding change_expense
  change_expense-Atomic subject group_id expense_id req =
      Triple-bind (if-Reads _ _) λ u. Triple-bind (caller-Reads subject) (λ caller. in_tx-Atomic _)

  pub submit_image_proof-Atomic :
      (subject payment : ℕ) (image : List ℕ)
      → Triple P (submit_image_proof subject payment image) Anything P
  unfolding submit_image_proof
  submit_image_proof-Atomic subject payment image =
      Triple-asks
        λ env. Triple-bind (unless-Reads _ _) λ u. transition_payment-Atomic subject payment _ _
