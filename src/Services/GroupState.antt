-- ===== src/Services/GroupState.antt =====
-- The states of the groups against the payments: what holds between requests.
pub mod Rows
pub mod Quiet
pub mod Members
pub mod Payments
pub mod Settle
pub mod Close
pub mod Regroup
pub mod Kept
pub mod Final
use expense_splitter.Prelude.{ℕ, ◌≡◌, ◌≤◌, Bool, Option, none, some, List, ◌==◌}
use expense_splitter.Types.Group.{GroupStatus, group_open, group_closed, group_settled}
use expense_splitter.Store.{GroupRow, PaymentRow, Db}
use expense_splitter.Store.Rows.{find, count_rows}
use expense_splitter.Store.Settlement.{is_unsettled}

abbrev pub group_row_status : Option GroupRow → Option GroupStatus
group_row_status none = none
group_row_status (some g) = some g.status

-- The status of a group.
abbrev pub status_of : ℕ → List GroupRow → Option GroupStatus
status_of id groups = group_row_status (find (λ g. g.id == id) groups)

abbrev pub unsettled : ℕ → List PaymentRow → ℕ
unsettled group_id payments = count_rows (is_unsettled group_id) payments

abbrev pub payments_of : ℕ → List PaymentRow → ℕ
payments_of group_id payments = count_rows (λ p. p.group_id == group_id) payments

-- A group that does not exist and an open one have no payments, a closed one has a payment that is not settled, and a settled one
-- has none that is not.
abbrev pub Agree : Option GroupStatus → ℕ → List PaymentRow → Type 0
Agree none id payments = payments_of id payments ≡ 0
Agree (some group_open) id payments = payments_of id payments ≡ 0
Agree (some group_closed) id payments = 1 ≤ unsettled id payments
Agree (some group_settled) id payments = unsettled id payments ≡ 0

abbrev pub OneEach : List PaymentRow → Type 0
OneEach payments = (id : ℕ) → count_rows (λ p. p.id == id) payments ≤ 1

-- Every group agrees with its payments, whose ids are distinct.
abbrev pub Consistent : List GroupRow → List PaymentRow → Type 0
Consistent groups payments = ((id : ℕ) → Agree (status_of id groups) id payments) × OneEach payments

abbrev pub IsConsistent : Db → Type 0
IsConsistent db = Consistent db.groups db.payments
