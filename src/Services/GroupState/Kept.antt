-- ===== src/Services/GroupState/Kept.antt =====
-- What every request keeps, and every sequence of requests.
use expense_splitter.Prelude.{ℕ, ◌≡◌, true, some, ◌==◌, List}
use expense_splitter.Types.ApiError.{Result, ok, err}
use expense_splitter.Store.{Db}
use expense_splitter.Store.Action.{Env, World, Action, pure, ◌>>◌}
use expense_splitter.Store.Hoare.{Pred, Holds, Triple, Triple-bind, Triple-asks}
use expense_splitter.Services.Payments.{
  transition_payment, submit_payment_proof, confirm_payment, dispute_payment, finalize_payment,
  reject_payment,
}
use expense_splitter.Services.Memberships.{approve_member, reject_member}
use expense_splitter.Services.Request.{
  Request, serve, submit_proof_request, confirm_request, dispute_request, finalize_request,
  reject_request, close_request, record_request, delete_request, change_request, join_request,
  approve_request, reject_member_request, transfer_request, remove_request, verification_request,
  decision_request, image_request, create_group_request, update_group_request, delete_user_request,
  delete_group_request, registration_request, nudge_request,
}
use expense_splitter.Store.{GroupRow, PaymentRow}
use expense_splitter.Store.Rows.{find}
use expense_splitter.Types.Payment.{is_settled}
use expense_splitter.Payment.{PaymentAction}
use expense_splitter.Services.Close.{close_group}
use expense_splitter.Services.GroupState.Final.{Stays, transition_payment-Stays, close_group-Stays}
use expense_splitter.Services.GroupState.{Consistent, IsConsistent}
use expense_splitter.Services.GroupState.Quiet.{On, On-Stable, done-Same, unless-Same}
use expense_splitter.Services.GroupState.Members.{
  request_to_join-Same, set_member_status-Same, transfer_admin-Same, remove_member-Same,
}
use expense_splitter.Services.Frame.{done-Keeps}
use expense_splitter.Services.Frame.Expenses.{
  record_expense-Keeps, delete_expense-Keeps, change_expense-Keeps,
}
use expense_splitter.Services.Frame.Accounts.{
  submit_verification-Keeps, set_verification-Keeps, admin_delete_user-Keeps, register-Keeps,
  run_nudges-Keeps,
}
use expense_splitter.Services.Frame.Proofs.{Aside, store_text_proof-Aside, store_image_proof-Aside}
use expense_splitter.Services.GroupState.Settle.{transition_payment-Consistent}
use expense_splitter.Services.Proofs.{submit_image_proof}
use expense_splitter.Services.GroupState.Regroup.{
  Regroups, Consistent-Regroups, create_group-Keeps, update_group-Keeps, admin_delete_group-Keeps,
}
use expense_splitter.Services.GroupState.Close.{close_group-Consistent}

-- Any property of the groups and the payments that the payment requests, the close and the changes
-- of the groups keep, since no other request touches either.
module _ (K : List GroupRow → List PaymentRow → Type 0)
    (moves : (subject id : ℕ) (action : PaymentAction) (side : Action (Unit {0}))
      → Aside side
      → Triple (On K) (transition_payment subject id action side) (λ p. On K) (On K))
    (closes : (subject id : ℕ) → Triple (On K) (close_group subject id) (λ r. On K) (On K))
    (regroups : Regroups K) where
  discard :
      {A : Type 0} {m : Action A}
      → Triple (On K) m (λ a. On K) (On K)
      → Triple (On K) (m >> pure tt) (λ a. On K) (On K)
  discard h = Triple-bind h (λ a. done-Same K tt)

  moves_only :
      (subject id : ℕ) (action : PaymentAction)
      → Triple (On K) (transition_payment subject id action (pure tt)) (λ p. On K) (On K)
  moves_only subject id action = moves subject id action (pure tt) (λ P stable. done-Keeps tt)

  image-Keeps :
      (subject payment : ℕ) (image : List ℕ)
      → Triple (On K) (submit_image_proof subject payment image) (λ p. On K) (On K)
  unfolding submit_image_proof
  image-Keeps subject payment image = Triple-asks λ env.
      Triple-bind (unless-Same K (λ db p. p) _ _)
        λ u. moves subject payment _ _ (store_image_proof-Aside payment image)

  serve-Keeps : (subject : ℕ) (r : Request) → Triple (On K) (serve subject r) (λ u. On K) (On K)
  unfolding serve submit_payment_proof confirm_payment dispute_payment finalize_payment
      reject_payment approve_member reject_member
  serve-Keeps s (submit_proof_request payment note) =
      discard (moves s payment _ _ (store_text_proof-Aside payment note))
  serve-Keeps s (confirm_request payment) = discard (moves_only s payment _)
  serve-Keeps s (dispute_request payment) = discard (moves_only s payment _)
  serve-Keeps s (finalize_request payment) = discard (moves_only s payment _)
  serve-Keeps s (reject_request payment) = discard (moves_only s payment _)
  serve-Keeps s (close_request group) = discard (closes s group)
  serve-Keeps s (record_request group req) =
      discard (record_expense-Keeps (On-Stable K) s group req)
  serve-Keeps s (delete_request group expense) = delete_expense-Keeps (On-Stable K) s group expense
  serve-Keeps s (change_request group expense req) =
      change_expense-Keeps (On-Stable K) s group expense req
  serve-Keeps s (join_request token) = discard (request_to_join-Same K s token)
  serve-Keeps s (approve_request group target) = discard (set_member_status-Same K s group target _)
  serve-Keeps s (reject_member_request group target) =
      discard (set_member_status-Same K s group target _)
  serve-Keeps s (transfer_request group target) = discard (transfer_admin-Same K s group target)
  serve-Keeps s (remove_request group target) = remove_member-Same K s group target
  serve-Keeps s (image_request payment image) = discard (image-Keeps s payment image)
  serve-Keeps s (create_group_request req) = discard (create_group-Keeps K regroups s req)
  serve-Keeps s (update_group_request group req) =
      discard (update_group-Keeps K regroups s group req)
  serve-Keeps s (delete_user_request user) = admin_delete_user-Keeps (On-Stable K) s user
  serve-Keeps s (delete_group_request group) = admin_delete_group-Keeps K regroups s group
  serve-Keeps s (registration_request email) = discard (register-Keeps (On-Stable K) s email)
  serve-Keeps s (nudge_request group hours) = discard (run_nudges-Keeps (On-Stable K) s group hours)
  serve-Keeps s verification_request = discard (submit_verification-Keeps (On-Stable K) s)
  serve-Keeps s (decision_request target decision) =
      discard (set_verification-Keeps (On-Stable K) s target decision)

-- Requests one after another, each by some account and in some environment.
pub data Serves : Db → Db → Type 0 where
  idle : {db : Db} → Serves db db
  served :
      {db' : Db} (w : World) (subject : ℕ) (r : Request) (env : Env)
      → Serves (serve subject r env w).1.db db'
      → Serves w.db db'

Holds-same : (P : Pred) (r : Result (Unit {0})) (w : World) → Holds (λ a. P) P (r, w) → P w.db
Holds-same P (ok a) w h = h
Holds-same P (err e) w h = h

pub Serves-Keeps :
    (P : Pred)
    → ((subject : ℕ) (r : Request) → Triple P (serve subject r) (λ u. P) P)
    → {db db' : Db} → Serves db db'
    → P db
    → P db'
Serves-Keeps P keeps idle h = h
Serves-Keeps P keeps (served w subject r env rest) h = Serves-Keeps P keeps rest (
    Holds-same P (serve subject r env w).0 (serve subject r env w).1
      ((keeps subject r).holds env w h))

-- Requests that are served one after another keep the groups in agreement with their payments: a
-- group that is open or does not exist has no payments, a closed one has a payment that is not
-- settled, a settled one has none that is not, and the ids of the payments are distinct.
pub serve-IsConsistent : {db db' : Db} → Serves db db' → IsConsistent db → IsConsistent db'
serve-IsConsistent = Serves-Keeps IsConsistent (
    serve-Keeps Consistent transition_payment-Consistent close_group-Consistent Consistent-Regroups)

Stays-Regroups :
    (id : ℕ) (p : PaymentRow) (h : is_settled p.status ≡ true) → Regroups (Stays id p h)
Stays-Regroups id p h = record {
  grows = λ groups payments g new is_new_open found. found;
  rewrites = λ groups payments j f found. found;
  drops = λ groups payments j free found. found;
}

-- Once a payment is settled, no sequence of requests by anybody changes its row in any column.
pub serve-final :
    (id : ℕ) (p : PaymentRow) {db db' : Db}
    → is_settled p.status ≡ true
    → find (λ r. r.id == id) db.payments ≡ some p
    → Serves db db'
    → find (λ r. r.id == id) db'.payments ≡ some p
serve-final id p h found serves =
    Serves-Keeps (On (Stays id p h))
      (serve-Keeps (Stays id p h) (transition_payment-Stays id p h) (close_group-Stays id p h)
        (Stays-Regroups id p h))
      serves found
