-- ===== src/Services/Admins/Kept.antt =====
-- Every request, and every sequence of requests, against the group admins.
use expense_splitter.Prelude.{ℕ}
use expense_splitter.Store.{Db}
use expense_splitter.Store.Action.{Action, pure, ◌>>◌}
use expense_splitter.Store.Hoare.{Triple, Triple-bind}
use expense_splitter.Services.Payments.{
  submit_payment_proof, confirm_payment, dispute_payment, finalize_payment, reject_payment,
}
use expense_splitter.Services.Memberships.{approve_member, reject_member}
use expense_splitter.Services.Request.{
  Request, serve, submit_proof_request, confirm_request, dispute_request, finalize_request,
  reject_request, close_request, record_request, delete_request, change_request, join_request,
  approve_request, reject_member_request, transfer_request, remove_request, verification_request,
  decision_request, image_request, create_group_request, update_group_request, delete_user_request,
  delete_group_request, registration_request, nudge_request,
}
use expense_splitter.Payment.{PaymentAction}
use expense_splitter.Services.Payments.{transition_payment}
use expense_splitter.Services.Frame.{Stable, done-Keeps}
use expense_splitter.Services.Frame.Expenses.{
  record_expense-Keeps, delete_expense-Keeps, change_expense-Keeps,
}
use expense_splitter.Services.Frame.Accounts.{
  submit_verification-Keeps, set_verification-Keeps, admin_delete_user-Keeps, register-Keeps,
  run_nudges-Keeps,
}
use expense_splitter.Services.Frame.Proofs.{store_text_proof-Aside}
use expense_splitter.Services.GroupState.Kept.{Serves, Serves-Keeps}
use expense_splitter.Services.Admins.{HasOneAdmin}
use expense_splitter.Services.Admins.Tidy.{steady}
use expense_splitter.Services.Admins.Money.{
  SameMembers, transition_payment-Keeps, submit_image_proof-Keeps, close_group-Keeps,
  update_group-Keeps,
}
use expense_splitter.Services.Admins.Members.{
  request_to_join-OneAdmin, set_member_status-OneAdmin, transfer_admin-OneAdmin,
}
use expense_splitter.Services.Admins.Leaving.{remove_member-OneAdmin}
use expense_splitter.Services.Admins.Groups.{create_group-OneAdmin, admin_delete_group-OneAdmin}

same_members : Stable SameMembers HasOneAdmin
same_members db db' same p = rw same.1 ((λ g. rw (same.0 g) (p.0 g)), p.1)

discard :
    {A : Type 0} {m : Action A}
    → Triple HasOneAdmin m (λ a. HasOneAdmin) HasOneAdmin
    → Triple HasOneAdmin (m >> pure tt) (λ a. HasOneAdmin) HasOneAdmin
discard h = Triple-bind h (λ a. done-Keeps tt)

moves :
    (subject id : ℕ) (action : PaymentAction)
    → Triple HasOneAdmin
        (transition_payment subject id action (pure tt))
        (λ p. HasOneAdmin)
        HasOneAdmin
moves subject id action =
    transition_payment-Keeps same_members subject id action (pure tt) (λ P stable. done-Keeps tt)

serve-OneAdmin :
    (subject : ℕ) (r : Request)
    → Triple HasOneAdmin (serve subject r) (λ u. HasOneAdmin) HasOneAdmin
unfolding serve submit_payment_proof confirm_payment dispute_payment finalize_payment reject_payment
    approve_member reject_member
serve-OneAdmin s (submit_proof_request payment note) =
    discard
      (transition_payment-Keeps same_members s payment _ _ (store_text_proof-Aside payment note))
serve-OneAdmin s (image_request payment image) =
    discard (submit_image_proof-Keeps same_members s payment image)
serve-OneAdmin s (confirm_request payment) = discard (moves s payment _)
serve-OneAdmin s (dispute_request payment) = discard (moves s payment _)
serve-OneAdmin s (finalize_request payment) = discard (moves s payment _)
serve-OneAdmin s (reject_request payment) = discard (moves s payment _)
serve-OneAdmin s (close_request group) = discard (close_group-Keeps same_members s group)
serve-OneAdmin s (record_request group req) = discard (record_expense-Keeps steady s group req)
serve-OneAdmin s (delete_request group expense) = delete_expense-Keeps steady s group expense
serve-OneAdmin s (change_request group expense req) =
    change_expense-Keeps steady s group expense req
serve-OneAdmin s (join_request token) = discard (request_to_join-OneAdmin s token)
serve-OneAdmin s (approve_request group target) =
    discard (set_member_status-OneAdmin s group target _)
serve-OneAdmin s (reject_member_request group target) =
    discard (set_member_status-OneAdmin s group target _)
serve-OneAdmin s (transfer_request group target) = discard (transfer_admin-OneAdmin s group target)
serve-OneAdmin s (remove_request group target) = remove_member-OneAdmin s group target
serve-OneAdmin s verification_request = discard (submit_verification-Keeps steady s)
serve-OneAdmin s (decision_request target decision) =
    discard (set_verification-Keeps steady s target decision)
serve-OneAdmin s (create_group_request req) = discard (create_group-OneAdmin s req)
serve-OneAdmin s (update_group_request group req) =
    discard (update_group-Keeps same_members s group req)
serve-OneAdmin s (delete_user_request user) = admin_delete_user-Keeps steady s user
serve-OneAdmin s (delete_group_request group) = admin_delete_group-OneAdmin s group
serve-OneAdmin s (registration_request email) = discard (register-Keeps steady s email)
serve-OneAdmin s (nudge_request group hours) = discard (run_nudges-Keeps steady s group hours)

-- Requests that are served one after another keep exactly one group admin in every group, who is
-- approved, and none for a group that does not exist; the ids of the memberships, and their pairs of
-- group and user, stay distinct.
pub serve-HasOneAdmin : {db db' : Db} → Serves db db' → HasOneAdmin db → HasOneAdmin db'
serve-HasOneAdmin = Serves-Keeps HasOneAdmin serve-OneAdmin
