-- ===== src/Services/Guard.antt =====
-- The version of a payment, the optimistic lock of `TransitionPayment` in
-- database/repo/payments.sql.go.
use expense_splitter.Prelude.{ℕ, ◌+◌, ◌≡◌, refl, ◌&&◌, none, List, [], ◌∷◌, ◌==◌, arith}
use expense_splitter.Types.Payment.{PaymentStatus}
use expense_splitter.Store.{PaymentRow, Db}
use expense_splitter.Store.Action.{row, no_rows}
use expense_splitter.Store.Rows.{find, update_rows}
use expense_splitter.Store.Settlement.{transition_payment_row}

find-update_rows :
    (id version : ℕ) (t : PaymentStatus) (now : ℕ) (payments : List PaymentRow)
    → find
        (λ p. (p.id == id) && (p.version == version))
        (update_rows
          (λ p. (p.id == id) && (p.version == version))
          (λ p. record p { status = t; version = p.version + 1; updated_at = now })
          payments)
      ≡ none
unfolding find update_rows
find-update_rows id version t now [] = refl
find-update_rows id version t now (p ∷ payments) =
    ground (arith, find-update_rows id version t now payments)

-- Of two updates of a payment that both read the same version, at most one is made: once the first
-- has answered a row, the second finds none, whatever statuses the two want.
pub transition_payment_row-once :
    (t u : PaymentStatus) (id version uuid now uuid' now' : ℕ) (db : Db) (p : PaymentRow)
    → (transition_payment_row t id version uuid now db).0 ≡ row p
    → transition_payment_row u id version uuid' now'
        (transition_payment_row t id version uuid now db).1
      ≡ (no_rows, (transition_payment_row t id version uuid now db).1)
unfolding transition_payment_row
transition_payment_row-once t u id version uuid now uuid' now' db p h =
    ground (arith, find-update_rows id version t now db.payments)
