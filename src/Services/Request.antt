-- ===== src/Services/Request.antt =====
-- The requests that change the database, one constructor for a method of `Services`, and what the
-- service does with each.
use Prim.Native.String.{String}
use expense_splitter.Prelude.{ℕ, List, some}
use expense_splitter.Types.Principal.{VerificationStatus}
use expense_splitter.Types.Expense.{RecordExpenseRequest}
use expense_splitter.Store.Action.{Action, pure, ◌>>◌}
use expense_splitter.Services.Payments.{
  submit_payment_proof, confirm_payment, dispute_payment, finalize_payment, reject_payment,
}
use expense_splitter.Services.Close.{close_group}
use expense_splitter.Services.Expenses.{record_expense, delete_expense, change_expense}
use expense_splitter.Services.Memberships.{
  request_to_join, approve_member, reject_member, transfer_admin, remove_member,
}
use expense_splitter.Store.Groups.{GroupFields}
use expense_splitter.Services.Groups.{CreateGroupRequest, create_group, update_group}
use expense_splitter.Services.Admin.{admin_delete_user, admin_delete_group}
use expense_splitter.Services.Registration.{register}
use expense_splitter.Services.Proofs.{submit_image_proof}
use expense_splitter.Services.Nudges.{run_nudges}
use expense_splitter.Services.Verification.{submit_verification, set_verification}

pub data Request : Type 0 where
  submit_proof_request : ℕ → String → Request
  confirm_request dispute_request finalize_request reject_request : ℕ → Request
  close_request : ℕ → Request
  record_request : ℕ → RecordExpenseRequest → Request
  delete_request : ℕ → ℕ → Request
  change_request : ℕ → ℕ → RecordExpenseRequest → Request
  join_request : ℕ → Request
  approve_request reject_member_request transfer_request remove_request : ℕ → ℕ → Request
  verification_request : Request
  decision_request : ℕ → VerificationStatus → Request
  image_request : ℕ → List ℕ → Request
  create_group_request : CreateGroupRequest → Request
  update_group_request : ℕ → GroupFields → Request
  delete_user_request : ℕ → Request
  delete_group_request : ℕ → Request
  registration_request : String → Request
  nudge_request : ℕ → ℕ → Request

-- The request of the account with a subject.
unfoldable pub serve : ℕ → Request → Action (Unit {0})
serve subject (submit_proof_request payment note) =
    submit_payment_proof subject payment note >> pure tt
serve subject (confirm_request payment) = confirm_payment subject payment >> pure tt
serve subject (dispute_request payment) = dispute_payment subject payment >> pure tt
serve subject (finalize_request payment) = finalize_payment subject payment >> pure tt
serve subject (reject_request payment) = reject_payment subject payment >> pure tt
serve subject (close_request group) = close_group subject group >> pure tt
serve subject (record_request group req) = record_expense subject group req >> pure tt
serve subject (delete_request group expense) = delete_expense subject group expense
serve subject (change_request group expense req) = change_expense subject group expense req
serve subject (join_request token) = request_to_join subject token >> pure tt
serve subject (approve_request group target) = approve_member subject group target >> pure tt
serve subject (reject_member_request group target) = reject_member subject group target >> pure tt
serve subject (transfer_request group target) = transfer_admin subject group target >> pure tt
serve subject (remove_request group target) = remove_member subject group target
serve subject verification_request = submit_verification subject >> pure tt
serve subject (decision_request target decision) =
    set_verification subject target decision >> pure tt
serve subject (image_request payment image) = submit_image_proof subject payment image >> pure tt
serve subject (create_group_request req) = create_group subject req >> pure tt
serve subject (update_group_request group req) = update_group subject group req >> pure tt
serve subject (delete_user_request user) = admin_delete_user subject user
serve subject (delete_group_request group) = admin_delete_group subject group
serve subject (registration_request email) = register (some subject) email >> pure tt
serve subject (nudge_request group hours) = run_nudges subject group hours >> pure tt
