-- ===== src/Services/GroupState/Final.antt =====
-- A settled payment against every request.
use expense_splitter.Prelude.{
  ℕ, ◌+◌, ◌≡◌, ◌∙◌, refl, Bool, true, false, ◌&&◌, Option, some, List, [], ◌∷◌, ◌==◌, ltb, ◌^◌,
  if◌then◌else◌, arith, Bool-cases, inl, inr,
}
use expense_splitter.Prelude.Int.{ℤ}
use expense_splitter.Types.ApiError.{ApiError, ok, new_conflict_error}
use expense_splitter.Types.Principal.{Principal}
use expense_splitter.Types.Membership.{group_admin}
use expense_splitter.Types.Payment.{PaymentStatus, is_settled}
use expense_splitter.Payment.{
  PaymentAction, PaymentActor, validate_payment_transition, audit_action_for,
}
use expense_splitter.Settlement.Plan.{Transfer}
use expense_splitter.Store.{GroupRow, PaymentRow, SettlementSnapshot, payment_status_audit}
use expense_splitter.Store.Action.{Query, Action, pure, or_raise, run, exec, ◌>>=◌, ◌>>◌}
use expense_splitter.Store.Rows.{find, update_rows}
use expense_splitter.Store.Groups.{lock_group, mark_group_closed, mark_group_settled}
use expense_splitter.Store.Memberships.{get_membership, list_approved_members}
use expense_splitter.Store.Expenses.{
  sum_paid_by_member, sum_spend_by_category, list_expense_allocations,
}
use expense_splitter.Store.Settlement.{
  get_payment, transition_payment_row, count_unsettled_payments, create_payment,
}
use expense_splitter.Store.Audit.{write_audit}
use expense_splitter.Store.Hoare.{
  Replies-if, Replies-update, Triple, Triple-lift, Triple-bind, Triple-map, Triple-run,
  Triple-in_tx, Triple-try_read, Triple-given, Triple-or_raise,
}
use expense_splitter.Services.Payments.{
  event_name, settle_group_if_done, advance_payment, transition_payment,
}
use expense_splitter.Services.Close.{store_plan, close_open_group, close_group}
use expense_splitter.Services.Reads.{principal_by_keycloak_id-Reads, require_group_role-Reads}
use expense_splitter.Services.GroupState.Rows.{find-update_rows, find-append}
use expense_splitter.Services.GroupState.Quiet.{
  On-Stable, On, Top, run-Same, write_audit-Same, unless-Same, done-Same,
  create_settlement_run-Quiet, Quiet, for_each-Same,
}
use expense_splitter.Services.GroupState.Payments.{
  set_status, validate_payment_transition-unsettled,
}
use expense_splitter.Services.Frame.Proofs.{Aside}
use expense_splitter.Services.GroupState.Settle.{Replies-one, top}

module _ (pid : ℕ) (p : PaymentRow) (final : is_settled p.status ≡ true) where
  -- The payment is there.
  abbrev pub Stays : List GroupRow → List PaymentRow → Type 0
  Stays groups payments = find (λ r. r.id == pid) payments ≡ some p

  -- Another payment, or the same, has been loaded.
  abbrev Beside : ℕ → PaymentRow → List GroupRow → List PaymentRow → Type 0
  Beside id q groups payments = Stays groups payments × (find (λ r. r.id == id) payments ≡ some q)

  -- A payment that is not settled has another id.
  other_id :
      (id : ℕ) (q : PaymentRow) (payments : List PaymentRow)
      → find (λ r. r.id == pid) payments ≡ some p
      → find (λ r. r.id == id) payments ≡ some q
      → is_settled q.status ≡ false
      → (id == pid) ≡ false
  other_id id q payments here there open_still = elim (Bool-cases (id == pid)) [
    | inl same ↦ ground arith
    | inr other ↦ other
  ]

  updated :
      (id : ℕ) (q : PaymentRow) (t : PaymentStatus) (now : ℕ) (groups : List GroupRow)
      (payments : List PaymentRow)
      → Beside id q groups payments
      → is_settled q.status ≡ false
      → Stays groups
          (update_rows (λ r. (r.id == id) && (r.version == q.version)) (set_status t now) payments)
  updated id q t now groups payments l h =
      find-update_rows pid (λ r. (r.id == id) && (r.version == q.version)) (set_status t now)
        payments (λ x m. ground (arith, other_id id q payments l.0 l.1 h)) (λ x. refl)
      ∙ l.0

  update-Stays :
      (id : ℕ) (q : PaymentRow) (t : PaymentStatus) (e : ApiError)
      → is_settled q.status ≡ false
      → Triple
          (On (Beside id q))
          (run (transition_payment_row t id q.version) e)
          (λ r. On Stays)
          Top
  unfolding transition_payment_row
  update-Stays id q t e h = Triple-run _ e (top (Beside id q)) λ uuid now db l.
      let test : PaymentRow → Bool = λ r. (r.id == id) && (r.version == q.version) in
      Replies-update (On Stays) (find test db.payments) (λ r. ltb (r.version + 1) (2 ^ 31))
        (set_status t now) db
        (record db { payments = update_rows test (set_status t now) db.payments })
        (λ r found. updated id q t now db.groups db.payments l h)

  settle_when :
      (b : Bool) (m : Action (Unit {0}))
      → Triple (On Stays) m (λ u. On Stays) Top
      → Triple (On Stays) (if b then m else pure tt) (λ u. On Stays) Top
  settle_when true m h = h
  settle_when false m h = done-Same Stays tt

  mark_settled-Stays :
      (id : ℕ) → Triple (On Stays) (exec (mark_group_settled id)) (λ u. On Stays) Top
  unfolding mark_group_settled
  mark_settled-Stays id = Triple-run (mark_group_settled id) _ (top Stays) λ uuid now db h. h

  settle_group_if_done-Stays :
      (id caller : ℕ) → Triple (On Stays) (settle_group_if_done id caller) (λ u. On Stays) Top
  unfolding settle_group_if_done count_unsettled_payments
  settle_group_if_done-Stays id caller =
      Triple-bind
        (run-Same Stays (top Stays) (count_unsettled_payments id) _ λ uuid now db. (refl, refl))
        λ n.
          settle_when (n == 0) _
            (Triple-bind (mark_settled-Stays id) λ u. write_audit-Same Stays (top Stays) _ _ _ _ _)

  moved-Stays :
      (caller : Principal) (id : ℕ) (q : PaymentRow) (action : PaymentAction)
      (side : Action (Unit {0})) (actor : PaymentActor) (t : PaymentStatus)
      → Aside side
      → validate_payment_transition action actor q.status ≡ ok t
      → Triple
          (On (Beside id q))
          (do
            side
            updated ←
                run
                  (transition_payment_row t id q.version)
                  (new_conflict_error "payment was modified concurrently — retry")
            write_audit q.group_id caller.user_id
                (event_name (audit_action_for action actor q.status))
                (payment_status_audit id q.status)
                (payment_status_audit id t)
            if is_settled t then settle_group_if_done q.group_id caller.user_id else pure tt
            pure updated)
          (λ r. On Stays)
          Top
  moved-Stays caller id q action side actor t aside e =
      Triple-bind (aside (On (Beside id q)) (On-Stable (Beside id q))) λ u.
        Triple-bind
          (update-Stays id q t _ (validate_payment_transition-unsettled action actor q.status t e))
          λ r. Triple-bind (write_audit-Same Stays (top Stays) _ _ _ _ _) λ u.
            Triple-bind
              (settle_when (is_settled t) _ (settle_group_if_done-Stays q.group_id caller.user_id))
              λ u. done-Same Stays r

  advance_payment-Stays :
      (caller : Principal) (id : ℕ) (q : PaymentRow) (actor : PaymentActor) (action : PaymentAction)
      (side : Action (Unit {0}))
      → Aside side
      → Triple
          (On (Beside id q))
          (advance_payment caller id q actor action side)
          (λ r. On Stays)
          Top
  unfolding advance_payment
  advance_payment-Stays caller id q actor action side aside =
      Triple-bind (unless-Same (Beside id q) (top (Beside id q)) _ _) λ u.
        Triple-bind (Triple-lift (top (Beside id q)) _)
          λ t. Triple-given (moved-Stays caller id q action side actor t aside)

  pub transition_payment-Stays :
      (subject id : ℕ) (action : PaymentAction) (side : Action (Unit {0}))
      → Aside side
      → Triple (On Stays) (transition_payment subject id action side) (λ r. On Stays) (On Stays)
  unfolding transition_payment get_payment get_membership
  transition_payment-Stays subject id action side aside =
      Triple-bind (principal_by_keycloak_id-Reads subject _) λ caller.
        Triple-in_tx {F = Top} (λ db h. h)
          (Triple-bind
            (Triple-run {Q = λ q. On (Beside id q)} (get_payment id) _ (top Stays)
              λ uuid now db h. Replies-one (λ q. On (Beside id q)) _ db λ q found. (h, found))
            λ q.
              Triple-bind
                (Triple-try_read (top (Beside id q)) (get_membership q.group_id caller.user_id)
                  λ uuid now db. refl)
                λ m. advance_payment-Stays caller id q _ action side aside)

  mark_closed-Stays : (id : ℕ) → Triple (On Stays) (exec (mark_group_closed id)) (λ u. On Stays) Top
  unfolding mark_group_closed
  mark_closed-Stays id = Triple-run (mark_group_closed id) _ (top Stays) λ uuid now db h. h

  create_payment-Stays :
      (run_id id from_user to_user : ℕ) (amount : ℤ)
      → Triple
          (On Stays)
          (exec (create_payment run_id id from_user to_user amount))
          (λ u. On Stays)
          Top
  unfolding create_payment
  create_payment-Stays run_id id from_user to_user amount =
      Triple-run (create_payment run_id id from_user to_user amount) _ (top Stays) λ uuid now db h.
        Replies-if (λ u. On Stays) _ tt db _ λ valid. find-append pid db.payments _ p h

  finish-Stays :
      (id : ℕ) (plan : List Transfer)
      → Triple
          (On Stays)
          (elim plan [ [] ↦ exec (mark_group_settled id) | _ ↦ pure tt ])
          (λ u. On Stays)
          Top
  finish-Stays id [] = mark_settled-Stays id
  finish-Stays id (t ∷ plan) = done-Same Stays tt

  store_plan-Stays :
      (caller id : ℕ) (snapshot : SettlementSnapshot) (plan : List Transfer)
      → Triple (On Stays) (store_plan caller id snapshot plan) (λ u. On Stays) Top
  unfolding store_plan
  store_plan-Stays caller id snapshot plan = Triple-bind (mark_closed-Stays id) λ u.
      Triple-bind (run-Same Stays (top Stays) _ _ (create_settlement_run-Quiet _ _ _)) λ run_id.
        Triple-bind
          (for_each-Same Stays (top Stays)
            (λ t. create_payment-Stays run_id id t.from t.to t.amount) plan)
          λ u. Triple-bind (finish-Stays id plan) λ u. write_audit-Same Stays (top Stays) _ _ _ _ _

  read : {A : Type 0} (q : Query A) → Quiet q → Triple (On Stays) (exec q) (λ a. On Stays) Top
  read q h = run-Same Stays (top Stays) q _ h

  ignore_fact :
      {A : Type 0} (e : ApiError) (o : Option A)
      → Triple (On Stays) (or_raise e o) (λ a. On Stays) Top
  ignore_fact e o = Triple-map (λ db h. h) (λ a db h. h.0) (Triple-or_raise (top Stays) e o)

  close_open_group-Stays :
      (caller id : ℕ) → Triple (On Stays) (close_open_group caller id) (λ r. On Stays) Top
  unfolding close_open_group list_approved_members sum_paid_by_member sum_spend_by_category
      list_expense_allocations
  close_open_group-Stays caller id =
      Triple-bind (read (list_approved_members id) λ uuid now db. (refl, refl)) λ members.
        Triple-bind (read (sum_paid_by_member id) λ uuid now db. (refl, refl)) λ paid.
          Triple-bind (read (sum_spend_by_category id) λ uuid now db. (refl, refl)) λ cats.
            Triple-bind (read (list_expense_allocations id) λ uuid now db. (refl, refl)) λ rows.
              Triple-bind (ignore_fact _ _) λ fair.
                Triple-bind (ignore_fact _ _)
                  λ plan. Triple-bind (store_plan-Stays caller id _ plan) λ u. done-Same Stays _

  pub close_group-Stays :
      (subject id : ℕ) → Triple (On Stays) (close_group subject id) (λ r. On Stays) (On Stays)
  unfolding close_group lock_group
  close_group-Stays subject id = Triple-bind (principal_by_keycloak_id-Reads subject _) λ caller.
      Triple-bind (require_group_role-Reads caller id group_admin) λ u.
        Triple-in_tx {F = Top} (λ db h. h)
          (Triple-bind (run-Same Stays (top Stays) (lock_group id) _ λ uuid now db. (refl, refl))
            λ s.
              Triple-bind (unless-Same Stays (top Stays) _ _)
                λ u. close_open_group-Stays caller.user_id id)
