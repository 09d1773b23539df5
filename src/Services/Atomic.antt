-- ===== src/Services/Atomic.antt =====
-- What the requests leave behind when they fail.
pub mod Money
pub mod Members
pub mod Admin
use Prim.Native.String.{String}
use expense_splitter.Prelude.Text.{same_text}
use expense_splitter.Prelude.{
  ℕ, ◌≡◌, refl, Option, none, some, List, Bool-cases, inl, inr, Bool, true, false, ◌==◌,
  if◌then◌else◌,
}
use expense_splitter.Types.ApiError.{ApiError, Result, ok, err}
use expense_splitter.Types.Membership.{MembershipRole, MembershipStatus, group_admin}
use expense_splitter.Types.Principal.{
  Principal, VerificationStatus, registered, pending_verification, verified, rejected,
}
use expense_splitter.Types.Expense.{RecordExpenseRequest}
use expense_splitter.Store.{UserRow, Db}
use expense_splitter.Store.Action.{
  Env, World, Reply, row, no_rows, failed, Query, Action, pure, run, in_tx, ◌>>◌, lift, raise_if,
  raise_unless,
}
use expense_splitter.Store.Hoare.{
  Pred, Holds, Replies, Triple, Triple-pure, Triple-lift, Triple-bind, Triple-map, Triple-run,
  Triple-in_tx, Triple-trivial, Triple-read, Triple-try_read, Triple-raise_if, Triple-raise_unless,
  ReadsOnly, Triple-asks,
}
use expense_splitter.Services.Authz.{
  principal_by_keycloak_id, principal_by_user_id, principal_from_row, registered_caller,
  require_group_role,
}
use expense_splitter.Store.Users.{get_user_by_keycloak_id}
use expense_splitter.Store.Groups.{get_group_by_invite_token}
use expense_splitter.Store.Memberships.{get_membership, membership_has_expenses}
use expense_splitter.Store.Expenses.{user_has_expense_shares}
use expense_splitter.Services.Payments.{
  transition_payment, submit_payment_proof, confirm_payment, dispute_payment, finalize_payment,
  reject_payment,
}
use expense_splitter.Services.Close.{close_group}
use expense_splitter.Services.Expenses.{record_expense, delete_expense, change_expense}
use expense_splitter.Services.Memberships.{
  request_to_join, set_member_status, approve_member, reject_member, transfer_admin, remove_member,
}
use expense_splitter.Store.Users.{get_user_by_id, get_user_admin_view, count_user_memberships}
use expense_splitter.Store.Groups.{
  GroupFields, get_group_status, get_group_by_id, group_has_history,
}
use expense_splitter.Services.Groups.{CreateGroupRequest, resolve_admin, create_group, update_group}
use expense_splitter.Services.Admin.{global_admin_caller, admin_delete_user, admin_delete_group}
use expense_splitter.Services.Registration.{register, register_subject, link_or_create}
use expense_splitter.Services.Proofs.{submit_image_proof}
use expense_splitter.Services.Verification.{submit_verification, set_verification, ask_verification}
use expense_splitter.Services.Request.{
  Request, serve, submit_proof_request, confirm_request, dispute_request, finalize_request,
  reject_request, close_request, record_request, delete_request, change_request, join_request,
  approve_request, reject_member_request, transfer_request, remove_request, verification_request,
  decision_request, image_request, create_group_request, update_group_request, delete_user_request,
  delete_group_request, registration_request, nudge_request,
}
use expense_splitter.Payment.{PaymentAction}
use expense_splitter.Services.Reads.{
  Anything, principal_by_keycloak_id-Reads, require_group_role-Reads, in_tx-Atomic, run-Atomic,
  caller-Reads, unless-Reads, if-Reads, lift-Reads, read,
}
use expense_splitter.Services.Atomic.Money.{
  transition_payment-Atomic, close_group-Atomic, record_expense-Atomic, delete_expense-Atomic,
  change_expense-Atomic, submit_image_proof-Atomic,
}
use expense_splitter.Services.Atomic.Members.{
  request_to_join-Atomic, set_member_status-Atomic, transfer_admin-Atomic, self_or_admin-Reads,
  remove_member-Atomic, ask_verification-Atomic, submit_verification-Atomic,
  set_verification-Atomic,
}
use expense_splitter.Services.Atomic.Admin.{
  resolve_admin-Reads, create_group-Atomic, update_group-Atomic, global_admin_caller-Reads,
  admin_delete_user-Atomic, admin_delete_group-Atomic, known_or-Atomic, register-Atomic,
}

-- The reminders are sent one statement after another.
abbrev pub in_one_tx : Request → Bool
in_one_tx (nudge_request group hours) = false
in_one_tx _ = true

module _ {P : Pred} where
  done : {A : Type 0} {m : Action A} → Triple P m Anything P → Triple P (m >> pure tt) Anything P
  done h = Triple-bind h (λ a. Triple-pure _ (λ db p. p))

  serve-Atomic :
      (subject : ℕ) (r : Request) → in_one_tx r ≡ true → Triple P (serve subject r) Anything P
  unfolding serve submit_payment_proof confirm_payment dispute_payment finalize_payment
      reject_payment approve_member reject_member
  serve-Atomic s (submit_proof_request payment note) h =
      done (transition_payment-Atomic s payment _ _)
  serve-Atomic s (confirm_request payment) h = done (transition_payment-Atomic s payment _ _)
  serve-Atomic s (dispute_request payment) h = done (transition_payment-Atomic s payment _ _)
  serve-Atomic s (finalize_request payment) h = done (transition_payment-Atomic s payment _ _)
  serve-Atomic s (reject_request payment) h = done (transition_payment-Atomic s payment _ _)
  serve-Atomic s (close_request group) h = done (close_group-Atomic s group)
  serve-Atomic s (record_request group req) h = done (record_expense-Atomic s group req)
  serve-Atomic s (delete_request group expense) h = delete_expense-Atomic s group expense
  serve-Atomic s (change_request group expense req) h = change_expense-Atomic s group expense req
  serve-Atomic s (join_request token) h = done (request_to_join-Atomic s token)
  serve-Atomic s (approve_request group target) h = done (set_member_status-Atomic s group target _)
  serve-Atomic s (reject_member_request group target) h =
      done (set_member_status-Atomic s group target _)
  serve-Atomic s (transfer_request group target) h = done (transfer_admin-Atomic s group target)
  serve-Atomic s (remove_request group target) h = remove_member-Atomic s group target
  serve-Atomic s verification_request h = done (submit_verification-Atomic s)
  serve-Atomic s (decision_request target decision) h =
      done (set_verification-Atomic s target decision)
  serve-Atomic s (image_request payment image) h = done (submit_image_proof-Atomic s payment image)
  serve-Atomic s (create_group_request req) h = done (create_group-Atomic s req)
  serve-Atomic s (update_group_request group req) h = done (update_group-Atomic s group req)
  serve-Atomic s (delete_user_request user) h = admin_delete_user-Atomic s user
  serve-Atomic s (delete_group_request group) h = admin_delete_group-Atomic s group
  serve-Atomic s (registration_request email) h = done (register-Atomic s email)
  serve-Atomic s (nudge_request group hours) h = cc

Holds-error :
    {A : Type 0} (Q : A → Pred) (E : Pred) (r : Result A) (w : World)
    → Holds Q E (r, w)
    → (e : ApiError) → r ≡ err e
    → E w.db
Holds-error Q E (err x) w h e eq = h
Holds-error Q E (ok a) w h e eq = cc

-- Every request but the reminders leaves the database as it found it when it fails, whichever call
-- of the database failed and wherever the request had got to.
pub serve-rollback :
    (subject : ℕ) (r : Request) (env : Env) (w : World) (e : ApiError)
    → in_one_tx r ≡ true
    → (serve subject r env w).0 ≡ err e
    → (serve subject r env w).1.db ≡ w.db
serve-rollback subject r env w e t h =
    Holds-error Anything (λ db. db ≡ w.db) (serve subject r env w).0 (serve subject r env w).1
      ((serve-Atomic {P = λ db. db ≡ w.db} subject r t).holds env w refl) e h
