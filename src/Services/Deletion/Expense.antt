-- ===== src/Services/Deletion/Expense.antt =====
-- What `DeleteExpense` of services/expenses.go demands, and what it writes.
use expense_splitter.Prelude.{
  ℕ, ◌≡◌, refl, sym, ap, ◌∙◌, true, ◌&&◌, Option, none, some, List, ◌==◌, arith,
}
use expense_splitter.Prelude.Int.{ℤ}
use expense_splitter.Types.ApiError.{ApiError, ok}
use expense_splitter.Types.Principal.{Principal}
use expense_splitter.Types.Group.{is_open}
use expense_splitter.Store.{GroupRow, MembershipRow, ExpenseRow, absent, expense_audit, Db}
use expense_splitter.Store.Action.{Env, World, Reply, row, no_rows, run}
use expense_splitter.Store.Rows.{find, one, map_reply, update_rows}
use expense_splitter.Store.Hoare.{
  Holds-ok, Triple, Triple-bind, Triple-map, Triple-given, Triple-run, Triple-in_tx,
  Triple-raise_unless,
}
use expense_splitter.Store.Groups.{lock_group_status}
use expense_splitter.Store.Expenses.{
  is_live, LockExpenseForUpdateRow, lock_expense_for_update, soft_delete_expense,
}
use expense_splitter.Store.Audit.{write_audit}
use expense_splitter.Services.Expenses.{delete_expense}
use expense_splitter.Services.Frame.{Anywhere, anywhere}
use expense_splitter.Services.Readings.{Still, run-Reading}
use expense_splitter.Services.Creation.{IsCaller, principal_by_keycloak_id-IsCaller}
use expense_splitter.Services.Deletion.{with_entry, run_audit}

-- A live expense of a group, which a user has paid.
abbrev pub IsPaidBy : Db → ℕ → ℕ → ℕ → ExpenseRow → Type 0
IsPaidBy db group_id expense_id user_id e =
    (m : MembershipRow) × (find (λ x. (x.id == expense_id) && is_live group_id x) db.expenses
      ≡ some e)
    × (find (λ x. x.id == e.paid_by) db.memberships ≡ some m)
    × (m.user_id ≡ user_id)

locked-payer :
    (e : ExpenseRow) (o : Option MembershipRow) (r : LockExpenseForUpdateRow)
    → (elim o as (λ x. Reply LockExpenseForUpdateRow) [
      | none ↦ no_rows
      | some m ↦ row (record { amount_baisa = e.amount_baisa; user_id = m.user_id })
    ])
      ≡ row r
    → (m : MembershipRow) × (o ≡ some m)
      × (r ≡ record { amount_baisa = e.amount_baisa; user_id = m.user_id })
locked-payer e none r h = ground arith
locked-payer e (some m) r h = (m, refl, ground (arith, h))

locked-both :
    (ms : List MembershipRow) (o : Option ExpenseRow) (r : LockExpenseForUpdateRow)
    → (elim o as (λ x. Reply LockExpenseForUpdateRow) [
      | none ↦ no_rows
      | some e ↦ elim (find (λ m. m.id == e.paid_by) ms) as (λ x. Reply LockExpenseForUpdateRow) [
        | none ↦ no_rows
        | some m ↦ row (record { amount_baisa = e.amount_baisa; user_id = m.user_id })
      ]
    ])
      ≡ row r
    → (e : ExpenseRow) × (m : MembershipRow) × (o ≡ some e)
      × (find (λ x. x.id == e.paid_by) ms ≡ some m)
      × (r ≡ record { amount_baisa = e.amount_baisa; user_id = m.user_id })
locked-both ms none r h = ground arith
locked-both ms (some e) r h =
    let t = locked-payer e (find (λ m. m.id == e.paid_by) ms) r h in (e, t.0, refl, t.1, t.2)

lock_expense_for_update-IsPaidBy :
    (group_id expense_id uuid now : ℕ) (db : Db) (r : LockExpenseForUpdateRow)
    → (lock_expense_for_update expense_id group_id uuid now db).0 ≡ row r
    → (e : ExpenseRow) × IsPaidBy db group_id expense_id r.user_id e
      × (r.amount_baisa ≡ e.amount_baisa)
unfolding lock_expense_for_update
lock_expense_for_update-IsPaidBy group_id expense_id uuid now db r h =
    let t =
      locked-both db.memberships
        (find (λ e. (e.id == expense_id) && is_live group_id e) db.expenses) r h in
    (t.0, (t.1, t.2, t.3, sym (ap (λ x. x.user_id) t.4)), ap (λ x. x.amount_baisa) t.4)

abbrev pub IsOpenGroup : Db → ℕ → Type 0
IsOpenGroup db group_id =
    (g : GroupRow) × (find (λ x. x.id == group_id) db.groups ≡ some g) × (is_open g.status ≡ true)

module _ (db0 : Db) where
  -- What the deletion of an expense rests on: the group is open, and the caller paid the expense.
  abbrev pub IsDeletable : ℕ → ℕ → ℕ → Principal → ExpenseRow → Type 0
  IsDeletable subject group_id expense_id caller e =
      IsCaller db0 subject caller
      × IsOpenGroup db0 group_id
      × IsPaidBy db0 group_id expense_id caller.user_id e

  -- The expense is marked, and the deletion is logged.
  abbrev pub with_deleted : ℕ → ℕ → Principal → ℤ → Db
  with_deleted group_id expense_id caller amount =
      with_entry
        (record {
          group_id = some group_id;
          actor_user_id = caller.user_id;
          action = "expense.deleted";
          before = expense_audit expense_id amount none none;
          after = absent;
        })
        (record db0 {
          expenses =
              update_rows (λ x. x.id == expense_id) (λ x. record x { deleted = true }) db0.expenses;
        })

  status-IsOpenGroup :
      (group_id : ℕ) (o : Option GroupRow) (s : _)
      → find (λ g. g.id == group_id) db0.groups ≡ o
      → map_reply (λ g. g.status) (one o) ≡ row s
      → is_open s ≡ true
      → IsOpenGroup db0 group_id
  status-IsOpenGroup group_id none s found h open_now = ground (arith, h)
  status-IsOpenGroup group_id (some g) s found h open_now = (g, found, ground (arith, h, open_now))

  run-lock_group_status :
      (group_id : ℕ) (e : ApiError)
      → Triple
          (Still db0)
          (run (lock_group_status group_id) e)
          (λ s db. Still db0 db × (is_open s ≡ true → IsOpenGroup db0 group_id))
          Anywhere
  unfolding lock_group_status
  run-lock_group_status group_id e =
      Triple-map (λ db h. h)
        (λ s db h.
          (h.0, status-IsOpenGroup group_id (find (λ g. g.id == group_id) db0.groups) s refl h.1))
        (run-Reading db0
          (λ db. map_reply (λ g. g.status) (one (find (λ g. g.id == group_id) db.groups))) e)

  run-lock_expense :
      (group_id expense_id : ℕ) (e : ApiError)
      → Triple
          (Still db0)
          (run (lock_expense_for_update expense_id group_id) e)
          (λ r db.
            Still db0 db
            × ((x : ExpenseRow) × IsPaidBy db0 group_id expense_id r.user_id x
                × (r.amount_baisa ≡ x.amount_baisa)))
          Anywhere
  unfolding lock_expense_for_update
  run-lock_expense group_id expense_id e =
      Triple-map (λ db h. h)
        (λ r db h. (h.0, lock_expense_for_update-IsPaidBy group_id expense_id 0 0 db0 r h.1))
        (run-Reading db0 (λ db. (lock_expense_for_update expense_id group_id 0 0 db).0) e)

  run_soft_delete :
      (id : ℕ) (e : ApiError)
      → Triple
          (Still db0)
          (run (soft_delete_expense id) e)
          (λ u. Still (record db0 {
            expenses =
                update_rows (λ x. x.id == id) (λ x. record x { deleted = true }) db0.expenses;
          }))
          Anywhere
  unfolding soft_delete_expense
  run_soft_delete id e = Triple-run _ e (anywhere _) λ i now db h.
      ap {A = Db} {B = Db}
        (λ d. record d {
          expenses = update_rows (λ x. x.id == id) (λ x. record x { deleted = true }) d.expenses;
        })
        h

  delete_expense-IsDeletable :
      (subject group_id expense_id : ℕ)
      → Triple
          (Still db0)
          (delete_expense subject group_id expense_id)
          (λ u db.
            (caller : Principal) × (e : ExpenseRow) × IsDeletable subject group_id expense_id caller
              e
            × (db ≡ with_deleted group_id expense_id caller e.amount_baisa))
          Anywhere
  unfolding delete_expense write_audit
  delete_expense-IsDeletable subject group_id expense_id =
      Triple-bind (principal_by_keycloak_id-IsCaller db0 subject _) λ caller. Triple-given λ c.
        Triple-in_tx (anywhere _) (
          Triple-bind (run-lock_group_status group_id _) λ s. Triple-given λ opens.
            Triple-bind (Triple-raise_unless (anywhere _) _ _) λ u. Triple-given λ is_open_now.
              Triple-bind (run-lock_expense group_id expense_id _) λ old. Triple-given λ t.
                Triple-bind (Triple-raise_unless (anywhere _) _ _) λ u. Triple-given λ own.
                  Triple-bind (run_soft_delete expense_id _) λ u.
                    Triple-map (λ db h. h)
                      (λ u db h. (
                        caller,
                        t.0,
                        (c, opens is_open_now, (t.1.0, t.1.1, t.1.2, t.1.3 ∙ ground (arith, own))),
                        h ∙ ap (with_deleted group_id expense_id caller) t.2,
                      ))
                      (run_audit _ _ _))

-- When DeleteExpense succeeds, the account is registered, the group is open, the expense is a live
-- one of the group that the account has paid, and all that changes is the mark on the expense and one
-- audit entry with its amount.
pub delete_expense-Deletes :
    (subject group_id expense_id : ℕ) (env : Env) (w : World)
    → (delete_expense subject group_id expense_id env w).0 ≡ ok tt
    → (caller : Principal) × (e : ExpenseRow) × IsDeletable w.db subject group_id expense_id caller
        e
      × ((delete_expense subject group_id expense_id env w).1.db
          ≡ with_deleted w.db group_id expense_id caller e.amount_baisa)
delete_expense-Deletes subject group_id expense_id env w e =
    let r = delete_expense subject group_id expense_id env w in
    Holds-ok
      (λ u db.
        (caller : Principal) × (x : ExpenseRow) × IsDeletable w.db subject group_id expense_id
          caller x
        × (db ≡ with_deleted w.db group_id expense_id caller x.amount_baisa))
      Anywhere r.0 r.1 tt
      ((delete_expense-IsDeletable w.db subject group_id expense_id).holds env w refl) e
