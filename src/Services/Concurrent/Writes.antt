-- ===== src/Services/Concurrent/Writes.antt =====
-- What the part of `transitionPayment` after its reads does to the payments.
use expense_splitter.Prelude.{
  ℕ, ◌+◌, ◌≡◌, refl, Bool, true, false, ◌&&◌, some, List, ◌==◌, ltb, ◌^◌, if◌then◌else◌, sym, ap,
}
use expense_splitter.Types.ApiError.{ApiError, ok}
use expense_splitter.Types.Principal.{Principal}
use expense_splitter.Types.Payment.{PaymentStatus, is_settled}
use expense_splitter.Payment.{PaymentAction, PaymentActor, validate_payment_transition}
use expense_splitter.Store.{GroupRow, PaymentRow}
use expense_splitter.Store.Action.{Action, pure, run, exec}
use expense_splitter.Store.Rows.{find, update_rows}
use expense_splitter.Store.Groups.{mark_group_settled}
use expense_splitter.Store.Settlement.{transition_payment_row, count_unsettled_payments}
use expense_splitter.Store.Hoare.{
  Replies-update, Triple, Triple-map, Triple-lift, Triple-bind, Triple-run, Triple-given,
}
use expense_splitter.Services.Payments.{settle_group_if_done, advance_payment}
use expense_splitter.Services.GroupState.Quiet.{
  On-Stable, On, Top, run-Same, write_audit-Same, unless-Same, done-Same,
}
use expense_splitter.Services.GroupState.Payments.{set_status}
use expense_splitter.Services.Frame.Proofs.{Aside}
use expense_splitter.Services.GroupState.Settle.{top}

-- The rows of the version that was read are advanced, and there is one.
abbrev pub Updated : ℕ → PaymentRow → PaymentStatus → List PaymentRow → List PaymentRow → Type 0
Updated id q t old new =
    (now : ℕ) × (r : PaymentRow) × (find (λ x. (x.id == id) && (x.version == q.version)) old
      ≡ some r)
    × (new ≡ update_rows (λ x. (x.id == id) && (x.version == q.version)) (set_status t now) old)

-- The same, to a status that `validatePaymentTransition` answers.
abbrev pub Wrote :
    ℕ → PaymentRow → PaymentActor → PaymentAction → List PaymentRow → List PaymentRow → Type 0
Wrote id q actor action old new =
    (t : PaymentStatus) × (validate_payment_transition action actor q.status ≡ ok t)
    × Updated id q t old new

module _ (old : List PaymentRow) where
  abbrev Unwritten : List GroupRow → List PaymentRow → Type 0
  Unwritten groups payments = payments ≡ old

  module _ (Q : List PaymentRow → Type 0) where
    abbrev OfPayments : List GroupRow → List PaymentRow → Type 0
    OfPayments groups payments = Q payments

    mark_settled-OfPayments :
        (id : ℕ) → Triple (On OfPayments) (exec (mark_group_settled id)) (λ u. On OfPayments) Top
    unfolding mark_group_settled
    mark_settled-OfPayments id =
        Triple-run (mark_group_settled id) _ (top OfPayments) λ uuid now db h. h

    settle_when :
        (b : Bool) (m : Action (Unit {0}))
        → Triple (On OfPayments) m (λ u. On OfPayments) Top
        → Triple (On OfPayments) (if b then m else pure tt) (λ u. On OfPayments) Top
    settle_when true m h = h
    settle_when false m h = done-Same OfPayments tt

    settle_group_if_done-OfPayments :
        (id caller : ℕ)
        → Triple (On OfPayments) (settle_group_if_done id caller) (λ u. On OfPayments) Top
    unfolding settle_group_if_done count_unsettled_payments
    settle_group_if_done-OfPayments id caller =
        Triple-bind
          (run-Same OfPayments (top OfPayments) (count_unsettled_payments id) _
            λ uuid now db. (refl, refl))
          λ n. settle_when (n == 0) _ (
            Triple-bind (mark_settled-OfPayments id)
              λ u. write_audit-Same OfPayments (top OfPayments) _ _ _ _ _)

  update-Updated :
      (id : ℕ) (q : PaymentRow) (t : PaymentStatus) (e : ApiError)
      → Triple
          (On Unwritten)
          (run (transition_payment_row t id q.version) e)
          (λ r. On (OfPayments (Updated id q t old)))
          Top
  unfolding transition_payment_row
  update-Updated id q t e = Triple-run _ e (top Unwritten) λ uuid now db same.
      let test : PaymentRow → Bool = λ r. (r.id == id) && (r.version == q.version) in
      Replies-update (On (OfPayments (Updated id q t old))) (find test db.payments)
        (λ r. ltb (r.version + 1) (2 ^ 31)) (set_status t now) db
        (record db { payments = update_rows test (set_status t now) db.payments })
        (λ r found.
          (now, r, rw (sym same) found, ap (λ ps. update_rows test (set_status t now) ps) same))

  pub advance_payment-Wrote :
      (caller : Principal) (id : ℕ) (q : PaymentRow) (actor : PaymentActor) (action : PaymentAction)
      (side : Action (Unit {0}))
      → Aside side
      → Triple
          (On Unwritten)
          (advance_payment caller id q actor action side)
          (λ r. On (OfPayments (Wrote id q actor action old)))
          Top
  unfolding advance_payment
  advance_payment-Wrote caller id q actor action side aside =
      Triple-bind (unless-Same Unwritten (top Unwritten) _ _) λ u.
        Triple-bind (Triple-lift (top Unwritten) _) λ t. Triple-given λ legal.
          Triple-bind (aside (On Unwritten) (On-Stable Unwritten)) λ u.
            Triple-bind (Triple-map (λ db h. h) (λ r db h. (t, legal, h)) (update-Updated id q t _))
              λ r.
                Triple-bind
                  (write_audit-Same (OfPayments (Wrote id q actor action old))
                    (top (OfPayments (Wrote id q actor action old))) _ _ _ _ _)
                  λ u.
                    Triple-bind
                      (settle_when (Wrote id q actor action old) (is_settled t) _ (
                        settle_group_if_done-OfPayments (Wrote id q actor action old) q.group_id
                          caller.user_id))
                      λ u. done-Same (OfPayments (Wrote id q actor action old)) r
