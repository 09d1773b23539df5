-- ===== src/Services/GroupState/Close.antt =====
-- `CloseGroup` of services/close.go against the states of the groups.
use expense_splitter.Prelude.{
  ℕ, suc, ◌+◌, ◌≡◌, ◌≤◌, refl, ap, true, false, ◌&&◌, Option, none, some, List, [], ◌∷◌, ◌++◌, ◌==◌,
  length, arith,
}
use expense_splitter.Prelude.Int.{ℤ}
use expense_splitter.Types.ApiError.{ApiError}
use expense_splitter.Types.Membership.{group_admin}
use expense_splitter.Types.Group.{GroupStatus, group_open, group_closed, group_settled, is_open}
use expense_splitter.Types.Payment.{settled, pending, is_settled}
use expense_splitter.Settlement.Plan.{Transfer}
use expense_splitter.Store.{GroupRow, PaymentRow, SettlementSnapshot, Db}
use expense_splitter.Store.Action.{pure, run, exec}
use expense_splitter.Store.Rows.{one, map_reply, count_rows, update_rows, exists_row}
use expense_splitter.Store.Groups.{lock_group, mark_group_closed, mark_group_settled}
use expense_splitter.Store.Memberships.{list_approved_members}
use expense_splitter.Store.Expenses.{
  sum_paid_by_member, sum_spend_by_category, list_expense_allocations,
}
use expense_splitter.Store.Settlement.{create_payment, is_unsettled}
use expense_splitter.Store.Hoare.{
  Pred, Replies, Triple, Triple-pure, Triple-bind, Triple-map, Triple-run, Triple-in_tx,
  Triple-for_each, Triple-raise_unless, Triple-or_raise, Replies-if,
}
use expense_splitter.Services.Close.{store_plan, close_open_group, close_group}
use expense_splitter.Services.Reads.{principal_by_keycloak_id-Reads, require_group_role-Reads}
use expense_splitter.Services.GroupState.{
  status_of, group_row_status, unsettled, payments_of, Agree, OneEach, Consistent,
}
use expense_splitter.Services.GroupState.Rows.{count_rows-append, exists-count, status_of-closed}
use expense_splitter.Services.GroupState.Quiet.{
  On, Top, run-Same, write_audit-Same, done-Same, create_settlement_run-Quiet,
}
use expense_splitter.Services.GroupState.Payments.{AgreeAfter, Advanced}
use expense_splitter.Services.GroupState.Settle.{Agree-mark_settled, Agree-left, top}

unsettled-payments_of :
    (id : ℕ) (payments : List PaymentRow) → unsettled id payments ≤ payments_of id payments
unfolding count_rows
unsettled-payments_of id [] = ground arith
unsettled-payments_of id (p ∷ payments) = ground (arith, unsettled-payments_of id payments)

-- The group is open.
abbrev Opened : ℕ → List GroupRow → List PaymentRow → Type 0
Opened id groups payments = Consistent groups payments × (status_of id groups ≡ some group_open)

-- The group is closed, and `left` payments of its plan of `total` are still to be stored.
abbrev Planned : ℕ → ℕ → ℕ → List GroupRow → List PaymentRow → Type 0
Planned id total left groups payments =
    Advanced settled id groups payments × (unsettled id payments + left ≡ total)

module _ (id : ℕ) where
  AgreeAfter-closed :
      (j : ℕ) (groups : List GroupRow) (payments : List PaymentRow)
      → Agree (status_of j groups) j payments
      → status_of id groups ≡ some group_open
      → AgreeAfter
          ((j == id) && is_settled settled)
          (status_of j
            (update_rows (λ g. g.id == id) (λ g. record g { status = group_closed }) groups))
          j
          payments
  AgreeAfter-closed j groups payments agree h = rw (status_of-closed j id groups) (ground arith)

  mark_closed-Planned :
      (total : ℕ)
      → Triple (On (Opened id)) (exec (mark_group_closed id)) (λ u. On (Planned id total total)) Top
  unfolding mark_group_closed
  mark_closed-Planned total =
      Triple-run (mark_group_closed id) _ (λ db p. tt)
        λ uuid now db p. (
          ((λ j. AgreeAfter-closed j db.groups db.payments (p.0.0 j) p.1), p.0.1),
          ground (arith, p.1, p.0.0 id, unsettled-payments_of id db.payments),
        )

  -- A new pending payment of the group.
  AgreeAfter-append :
      (j : ℕ) (s : Option GroupStatus) (payments : List PaymentRow) (p : PaymentRow)
      → p.group_id ≡ id
      → AgreeAfter ((j == id) && is_settled settled) s j payments
      → AgreeAfter ((j == id) && is_settled settled) s j (payments ++ (p ∷ []))
  unfolding count_rows
  AgreeAfter-append j s payments p h agree = ground (
    arith,
    count_rows-append (is_unsettled j) payments (p ∷ []),
    count_rows-append (λ q. q.group_id == j) payments (p ∷ []),
  )

  OneEach-append :
      (payments : List PaymentRow) (p : PaymentRow)
      → OneEach payments
      → exists_row (λ q. q.id == p.id) payments ≡ false
      → OneEach (payments ++ (p ∷ []))
  unfolding count_rows
  OneEach-append payments p one_each fresh j = ground (
    arith,
    one_each j,
    exists-count (λ q. q.id == p.id) payments fresh,
    count_rows-append (λ q. q.id == j) payments (p ∷ []),
  )

  unsettled-append :
      (payments : List PaymentRow) (p : PaymentRow)
      → p.group_id ≡ id
      → p.status ≡ pending
      → unsettled id (payments ++ (p ∷ [])) ≡ suc (unsettled id payments)
  unfolding count_rows
  unsettled-append payments p h e =
      ground (arith, count_rows-append (is_unsettled id) payments (p ∷ []))

  added :
      (groups : List GroupRow) (payments : List PaymentRow) (p : PaymentRow) (total left : ℕ)
      → Planned id total (suc left) groups payments
      → exists_row (λ q. q.id == p.id) payments ≡ false
      → p.group_id ≡ id
      → p.status ≡ pending
      → Planned id total left groups (payments ++ (p ∷ []))
  added groups payments p total left planned fresh here new = (
    (
      (λ j. AgreeAfter-append j (status_of j groups) payments p here (planned.0.0 j)),
      OneEach-append payments p planned.0.1 fresh,
    ),
    omega (arith, planned.1, unsettled-append payments p here new),
  )

  create_payment-Planned :
      (run_id from_user to_user : ℕ) (amount : ℤ) (total left : ℕ)
      → Triple
          (On (Planned id total (suc left)))
          (exec (create_payment run_id id from_user to_user amount))
          (λ u. On (Planned id total left))
          Top
  unfolding create_payment
  create_payment-Planned run_id from_user to_user amount total left =
      Triple-run (create_payment run_id id from_user to_user amount) _ (λ db p. tt)
        λ uuid now db p.
          Replies-if (λ u. On (Planned id total left)) _ tt db _
            λ valid. added db.groups db.payments _ total left p (ground (arith, valid)) refl refl

  -- The end of the loop over the plan: an empty plan settles the group.
  finish-Consistent :
      (plan : List Transfer)
      → Triple
          (On (Planned id (length plan) 0))
          (elim plan [ [] ↦ exec (mark_group_settled id) | _ ↦ pure tt ])
          (λ u. On Consistent)
          Top
  unfolding mark_group_settled
  finish-Consistent [] =
      Triple-run (mark_group_settled id) _ (λ db p. tt)
        λ uuid now db p. (
          (λ j.
              Agree-mark_settled id j db.groups db.payments (ground (arith, p.0.0 j))
                (ground (arith, p.1))),
          p.0.1,
        )
  finish-Consistent (t ∷ plan) = Triple-pure tt λ db p. (
    (λ j.
        Agree-left id j (status_of j db.groups) db.payments (ground (arith, p.0.0 j))
          (ground (arith, p.1))),
    p.0.1,
  )

  store_plan-Consistent :
      (caller : ℕ) (snapshot : SettlementSnapshot) (plan : List Transfer)
      → Triple (On (Opened id)) (store_plan caller id snapshot plan) (λ u. On Consistent) Top
  unfolding store_plan
  store_plan-Consistent caller snapshot plan =
      let n = length plan in
      Triple-bind (mark_closed-Planned n) λ u.
        Triple-bind
          (run-Same (Planned id n n) (top (Planned id n n)) _ _ (create_settlement_run-Quiet _ _ _))
          λ run_id.
            Triple-bind
              (Triple-for_each (λ rest. On (Planned id n (length rest)))
                (λ t rest. create_payment-Planned run_id t.from t.to t.amount n (length rest)) plan)
              λ u.
                Triple-bind (finish-Consistent plan)
                  λ u. write_audit-Same Consistent (top Consistent) _ _ _ _ _

  close_open_group-Consistent :
      (caller : ℕ) → Triple (On (Opened id)) (close_open_group caller id) (λ r. On Consistent) Top
  unfolding close_open_group list_approved_members sum_paid_by_member sum_spend_by_category
      list_expense_allocations
  close_open_group-Consistent caller =
      Triple-bind
        (run-Same (Opened id) (top (Opened id)) (list_approved_members id) _
          λ uuid now db. (refl, refl))
        λ members.
          Triple-bind
            (run-Same (Opened id) (top (Opened id)) (sum_paid_by_member id) _
              λ uuid now db. (refl, refl))
            λ paid.
              Triple-bind
                (run-Same (Opened id) (top (Opened id)) (sum_spend_by_category id) _
                  λ uuid now db. (refl, refl))
                λ cats.
                  Triple-bind
                    (run-Same (Opened id) (top (Opened id)) (list_expense_allocations id) _
                      λ uuid now db. (refl, refl))
                    λ rows.
                      Triple-bind
                        (Triple-map (λ db p. p) (λ a db p. p.0)
                          (Triple-or_raise (top (Opened id)) _ _))
                        λ fair.
                          Triple-bind
                            (Triple-map (λ db p. p) (λ a db p. p.0)
                              (Triple-or_raise (top (Opened id)) _ _))
                            λ plan.
                              Triple-bind (store_plan-Consistent caller _ plan)
                                λ u. done-Same Consistent _

-- What the lock of the group reads.
pub Replies-status :
    (Q : GroupStatus → Pred) (o : Option GroupRow) (db : Db)
    → ((g : GroupRow) → o ≡ some g → Q g.status db)
    → Replies Q (map_reply (λ g. g.status) (one o), db)
Replies-status Q none db h = tt
Replies-status Q (some g) db h = h g refl

-- The group has been locked.
abbrev Locked : ℕ → GroupStatus → List GroupRow → List PaymentRow → Type 0
Locked id s groups payments = Consistent groups payments × (status_of id groups ≡ some s)

lock_group-Locked :
    (id : ℕ) (e : ApiError)
    → Triple (On Consistent) (run (lock_group id) e) (λ s. On (Locked id s)) Top
unfolding lock_group
lock_group-Locked id e = Triple-run (lock_group id) e (top Consistent) λ uuid now db p.
    Replies-status (λ s. On (Locked id s)) _ db λ g found. (p, ap group_row_status found)

open-Opened :
    (id : ℕ) (s : GroupStatus) (groups : List GroupRow) (payments : List PaymentRow)
    → Locked id s groups payments
    → is_open s ≡ true
    → Opened id groups payments
open-Opened id group_open groups payments locked h = locked
open-Opened id group_closed groups payments locked h = ground arith
open-Opened id group_settled groups payments locked h = ground arith

pub close_group-Consistent :
    (subject id : ℕ)
    → Triple (On Consistent) (close_group subject id) (λ r. On Consistent) (On Consistent)
unfolding close_group
close_group-Consistent subject id = Triple-bind (principal_by_keycloak_id-Reads subject _) λ caller.
    Triple-bind (require_group_role-Reads caller id group_admin) λ u.
      Triple-in_tx {F = Top} (λ db h. h)
        (Triple-bind (lock_group-Locked id _) λ s.
          Triple-bind
            (Triple-map (λ db p. p) (λ u db p. open-Opened id s db.groups db.payments p.0 p.1)
              (Triple-raise_unless (top (Locked id s)) (is_open s) _))
            λ u. close_open_group-Consistent id caller.user_id)
