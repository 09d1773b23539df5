-- ===== src/Services/GroupState/Settle.antt =====
-- The rest of `transitionPayment` of services/payments.go: the group after its last payment, and
-- the request as a whole.
use expense_splitter.Prelude.{
  ℕ, ◌≡◌, refl, Bool, true, false, ◌&&◌, Option, none, some, List, ◌==◌, ◌+◌, ltb, ◌^◌,
  if◌then◌else◌, arith,
}
use expense_splitter.Types.ApiError.{ApiError, ok, new_conflict_error}
use expense_splitter.Types.Principal.{Principal}
use expense_splitter.Types.Group.{GroupStatus, group_settled, is_closed}
use expense_splitter.Types.Payment.{
  PaymentStatus, pending, proof_submitted, creditor_confirmed, disputed, settled, is_settled,
}
use expense_splitter.Payment.{
  PaymentAction, PaymentActor, validate_payment_transition, audit_action_for,
}
use expense_splitter.Store.{GroupRow, PaymentRow, Db, payment_status_audit}
use expense_splitter.Store.Action.{Action, pure, run, exec, ◌>>=◌, ◌>>◌}
use expense_splitter.Store.Rows.{find, one, update_rows}
use expense_splitter.Store.Groups.{mark_group_settled}
use expense_splitter.Store.Memberships.{get_membership}
use expense_splitter.Store.Settlement.{
  get_payment, transition_payment_row, count_unsettled_payments,
}
use expense_splitter.Store.Hoare.{
  Pred, Replies, Replies-update, Triple, Triple-pure, Triple-lift, Triple-bind, Triple-run,
  Triple-in_tx, Triple-try_read, Triple-given,
}
use expense_splitter.Store.Audit.{write_audit}
use expense_splitter.Services.Payments.{
  event_name, settle_group_if_done, advance_payment, transition_payment,
}
use expense_splitter.Services.Reads.{principal_by_keycloak_id-Reads}
use expense_splitter.Services.Frame.Proofs.{Aside}
use expense_splitter.Services.GroupState.{status_of, unsettled, Agree, Consistent}
use expense_splitter.Services.GroupState.Rows.{status_of-settled}
use expense_splitter.Services.GroupState.Quiet.{
  On, Top, On-Stable, write_audit-Same, unless-Same, done-Same,
}
use expense_splitter.Services.GroupState.Payments.{
  AgreeAfter, Advanced, set_status, validate_payment_transition-unsettled, Consistent-Advanced,
}

-- What a read finds.
pub Replies-one :
    {A : Type 0} (Q : A → Pred) (o : Option A) (db : Db)
    → ((a : A) → o ≡ some a → Q a db)
    → Replies Q (one o, db)
Replies-one Q none db h = tt
Replies-one Q (some a) db h = h a refl

abbrev pub mark_settled : ℕ → List GroupRow → List GroupRow
mark_settled id groups =
    update_rows (λ g. (g.id == id) && is_closed g.status) (λ g. record g { status = group_settled })
      groups

-- With no payment left the group becomes settled.
pub Agree-mark_settled :
    (id j : ℕ) (groups : List GroupRow) (payments : List PaymentRow)
    → AgreeAfter (j == id) (status_of j groups) j payments
    → unsettled id payments ≡ 0
    → Agree (status_of j (mark_settled id groups)) j payments
Agree-mark_settled id j groups payments agree zero_left =
    rw (status_of-settled j id groups) (ground arith)

-- With one left the group stays closed.
pub Agree-left :
    (id j : ℕ) (s : Option GroupStatus) (payments : List PaymentRow)
    → AgreeAfter (j == id) s j payments
    → (unsettled id payments == 0) ≡ false
    → Agree s j payments
Agree-left id j s payments agree left = ground arith

-- The group has been counted.
abbrev Counted : ℕ → ℕ → List GroupRow → List PaymentRow → Type 0
Counted group_id n groups payments =
    Advanced settled group_id groups payments × (n ≡ unsettled group_id payments)

module _ (group_id caller : ℕ) where
  settle_when :
      (n : ℕ) (b : Bool) (m : Action (Unit {0}))
      → (n == 0) ≡ b
      → ((n == 0) ≡ true → Triple (On (Counted group_id n)) m (λ u. On Consistent) Top)
      → Triple (On (Counted group_id n)) (if b then m else pure tt) (λ u. On Consistent) Top
  settle_when n true m e h = h e
  settle_when n false m e h = Triple-pure tt λ db p. (
    (λ j.
        Agree-left group_id j (status_of j db.groups) db.payments (ground (arith, p.0.0 j))
          (ground (arith, p.1))),
    p.0.1,
  )

  mark-Consistent :
      (n : ℕ)
      → (n == 0) ≡ true
      → Triple
          (On (Counted group_id n))
          (exec (mark_group_settled group_id))
          (λ u. On Consistent)
          Top
  unfolding mark_group_settled
  mark-Consistent n e =
      Triple-run (mark_group_settled group_id) _ (λ db p. tt)
        λ id now db p. (
          (λ j.
              Agree-mark_settled group_id j db.groups db.payments (ground (arith, p.0.0 j))
                (ground (arith, p.1))),
          p.0.1,
        )

  settle_group_if_done-Consistent :
      Triple
        (On (Advanced settled group_id))
        (settle_group_if_done group_id caller)
        (λ u. On Consistent)
        Top
  unfolding settle_group_if_done count_unsettled_payments
  settle_group_if_done-Consistent =
      Triple-bind
        (Triple-run {Q = λ n. On (Counted group_id n)} (count_unsettled_payments group_id) _
          (λ db p. tt) λ id now db p. (p, refl))
        (λ n. settle_when n (n == 0) _ refl λ e.
          Triple-bind (mark-Consistent n e) λ u. write_audit-Same Consistent (λ db p. tt) _ _ _ _ _)

  -- `if newStatus == types.PaymentSettled`
  after_update :
      (t : PaymentStatus)
      → Triple
          (On (Advanced t group_id))
          (if is_settled t then settle_group_if_done group_id caller else pure tt)
          (λ u. On Consistent)
          Top
  after_update settled = settle_group_if_done-Consistent
  after_update pending = Triple-pure tt λ db p. ((λ j. ground (arith, p.0 j)), p.1)
  after_update proof_submitted = Triple-pure tt λ db p. ((λ j. ground (arith, p.0 j)), p.1)
  after_update creditor_confirmed = Triple-pure tt λ db p. ((λ j. ground (arith, p.0 j)), p.1)
  after_update disputed = Triple-pure tt λ db p. ((λ j. ground (arith, p.0 j)), p.1)

-- The payment has been loaded.
abbrev Loaded : ℕ → PaymentRow → List GroupRow → List PaymentRow → Type 0
Loaded pid p groups payments =
    Consistent groups payments × (find (λ r. r.id == pid) payments ≡ some p)

pub top : (K : List GroupRow → List PaymentRow → Type 0) (db : Db) → On K db → Top db
top K db p = tt

module _ (pid : ℕ) (p : PaymentRow) (t : PaymentStatus) where
  update-Advanced :
      (e : ApiError)
      → is_settled p.status ≡ false
      → Triple
          (On (Loaded pid p))
          (run (transition_payment_row t pid p.version) e)
          (λ q. On (Advanced t p.group_id))
          Top
  unfolding transition_payment_row
  update-Advanced e h =
      Triple-run _ e (λ db l. tt)
        λ id now db l.
          let test : PaymentRow → Bool = λ q. (q.id == pid) && (q.version == p.version) in
          Replies-update (On (Advanced t p.group_id)) (find test db.payments)
            (λ q. ltb (q.version + 1) (2 ^ 31)) (set_status t now) db
            (record db { payments = update_rows test (set_status t now) db.payments })
            (λ q found. Consistent-Advanced db.groups db.payments pid p t now q l.0 l.1 h found)

module _ (caller : Principal) (pid : ℕ) (p : PaymentRow) (action : PaymentAction)
    (side : Action (Unit {0})) (aside : Aside side) where
  moved :
      (actor : PaymentActor) (t : PaymentStatus)
      → validate_payment_transition action actor p.status ≡ ok t
      → Triple
          (On (Loaded pid p))
          (do
            side
            updated ←
                run
                  (transition_payment_row t pid p.version)
                  (new_conflict_error "payment was modified concurrently — retry")
            write_audit p.group_id caller.user_id
                (event_name (audit_action_for action actor p.status))
                (payment_status_audit pid p.status)
                (payment_status_audit pid t)
            if is_settled t then settle_group_if_done p.group_id caller.user_id else pure tt
            pure updated)
          (λ q. On Consistent)
          Top
  moved actor t e = Triple-bind (aside (On (Loaded pid p)) (On-Stable (Loaded pid p))) λ u.
      Triple-bind
        (update-Advanced pid p t _
          (validate_payment_transition-unsettled action actor p.status t e))
        λ q.
          Triple-bind
            (write_audit-Same (Advanced t p.group_id) (top (Advanced t p.group_id)) _ _ _ _ _)
            λ u. Triple-bind (after_update p.group_id caller.user_id t) λ u. done-Same Consistent q

  advance_payment-Consistent :
      (actor : PaymentActor)
      → Triple
          (On (Loaded pid p))
          (advance_payment caller pid p actor action side)
          (λ q. On Consistent)
          Top
  unfolding advance_payment
  advance_payment-Consistent actor =
      Triple-bind (unless-Same (Loaded pid p) (top (Loaded pid p)) _ _)
        λ u. Triple-bind (Triple-lift (top (Loaded pid p)) _) λ t. Triple-given (moved actor t)

pub transition_payment-Consistent :
    (subject pid : ℕ) (action : PaymentAction) (side : Action (Unit {0}))
    → Aside side
    → Triple
        (On Consistent)
        (transition_payment subject pid action side)
        (λ q. On Consistent)
        (On Consistent)
unfolding transition_payment get_payment get_membership
transition_payment-Consistent subject pid action side aside =
    Triple-bind (principal_by_keycloak_id-Reads subject _) λ caller.
      Triple-in_tx {F = Top} (λ db h. h)
        (Triple-bind
          (Triple-run {Q = λ p. On (Loaded pid p)} (get_payment pid) _ (top Consistent)
            λ id now db h. Replies-one (λ p. On (Loaded pid p)) _ db λ p found. (h, found))
          λ p.
            Triple-bind
              (Triple-try_read (top (Loaded pid p)) (get_membership p.group_id caller.user_id)
                λ id now db. refl)
              λ m. advance_payment-Consistent caller pid p action side aside _)
