-- ===== src/Services/GroupState/Payments.antt =====
-- `transitionPayment` of services/payments.go against the states of the groups.

use expense_splitter.Prelude.{
  ℕ, ◌+◌, ◌≡◌, ◌≤◌, refl, Bool, true, false, ◌&&◌, Option, none, some, List, ◌==◌, arith,
}
use expense_splitter.Types.ApiError.{ok}
use expense_splitter.Types.Group.{GroupStatus, group_open, group_closed, group_settled}
use expense_splitter.Types.Payment.{PaymentStatus, is_settled}
use expense_splitter.Payment.{PaymentAction, PaymentActor, validate_payment_transition}
use expense_splitter.Store.{GroupRow, PaymentRow}
use expense_splitter.Store.Rows.{find, count_rows, update_rows}
use expense_splitter.Store.Settlement.{is_unsettled}
use expense_splitter.Services.GroupState.{status_of, Agree, OneEach, Consistent}
use expense_splitter.Services.GroupState.Rows.{count_rows-update, count_rows-found, find-matches}

-- A closed group whose last payment may just have been settled.
abbrev pub Loose : Option GroupStatus → Type 0
Loose none = ⊥
Loose (some group_open) = ⊥
Loose (some group_closed) = Unit
Loose (some group_settled) = ⊥

abbrev pub AgreeAfter : Bool → Option GroupStatus → ℕ → List PaymentRow → Type 0
AgreeAfter true s id payments = Loose s
AgreeAfter false s id payments = Agree s id payments

-- Between the update of a payment and the update of its group.
abbrev pub Advanced : PaymentStatus → ℕ → List GroupRow → List PaymentRow → Type 0
Advanced t group_id groups payments =
    ((id : ℕ) → AgreeAfter ((id == group_id) && is_settled t) (status_of id groups) id payments)
    × OneEach payments

abbrev pub set_status : PaymentStatus → ℕ → PaymentRow → PaymentRow
set_status t now p = record p { status = t; version = p.version + 1; updated_at = now }

pub validate_payment_transition-unsettled :
    (action : PaymentAction) (actor : PaymentActor) (s t : PaymentStatus)
    → validate_payment_transition action actor s ≡ ok t
    → is_settled s ≡ false
unfolding validate_payment_transition
validate_payment_transition-unsettled action actor s t h = ground arith

module _ (groups : List GroupRow) (payments : List PaymentRow) (pid : ℕ) (p : PaymentRow)
    (t : PaymentStatus) (now : ℕ) where
  abbrev test : PaymentRow → Bool
  test q = (q.id == pid) && (q.version == p.version)

  abbrev changed : List PaymentRow
  changed = update_rows test (set_status t now) payments

  Agree-changed :
      (j : ℕ) (s : Option GroupStatus)
      → Agree s j payments
      → is_settled p.status ≡ false
      → find test payments ≡ some p
      → count_rows (λ q. q.id == pid) payments ≤ 1
      → AgreeAfter ((j == p.group_id) && is_settled t) s j changed
  Agree-changed j s agree unsettled_before found single =
      let f = set_status t now in
      ground (
        arith,
        count_rows-update pid p.version f (is_unsettled j) payments p found single,
        count_rows-update pid p.version f (λ q. q.group_id == j) payments p found single,
        count_rows-found pid p.version f (is_unsettled j) payments p found,
        count_rows-found pid p.version f (λ q. q.group_id == j) payments p found,
      )

  -- The guarded update of a payment that was not settled.
  pub Consistent-Advanced :
      (q : PaymentRow)
      → Consistent groups payments
      → find (λ r. r.id == pid) payments ≡ some p
      → is_settled p.status ≡ false
      → find test payments ≡ some q
      → Advanced t p.group_id groups changed
  Consistent-Advanced q consistent loaded unsettled_before found =
      let same = find-matches pid p.version (set_status t now) payments p q loaded refl found in
      let here : find test payments ≡ some p = rw (found, same) in
      let f = set_status t now in
      (
        (λ j.
            Agree-changed j (status_of j groups) (consistent.0 j) unsettled_before here
              (consistent.1 pid)),
        λ id. ground (
          arith,
          consistent.1 id,
          count_rows-update pid p.version f (λ r. r.id == id) payments p here (consistent.1 pid),
        ),
      )
