-- ===== src/Services/Closing.antt =====
-- What `CloseGroup` of services/close.go demands, and what it stores.
use expense_splitter.Prelude.{
  append-nil, ℕ, ◌≡◌, ◌∙◌, ap, sym, refl, true, some, List, [], ◌∷◌, ◌++◌, map, arith,
}
use expense_splitter.Prelude.Int.{ℤ}
use expense_splitter.Types.ApiError.{ApiError, ok}
use expense_splitter.Types.Group.{GroupStatus, group_open, group_closed, group_settled, is_open}
use expense_splitter.Types.Membership.{group_admin}
use expense_splitter.Types.Payment.{PaymentStatus, pending}
use expense_splitter.Settlement.Plan.{Transfer, compute_plan}
use expense_splitter.Store.{GroupRow, PaymentRow, SettlementSnapshot, Db}
use expense_splitter.Store.Action.{Env, World, Query, pure, run, exec}
use expense_splitter.Store.Groups.{lock_group, mark_group_closed, mark_group_settled}
use expense_splitter.Store.Memberships.{list_approved_members}
use expense_splitter.Store.Expenses.{
  sum_paid_by_member, sum_spend_by_category, list_expense_allocations,
}
use expense_splitter.Store.Settlement.{create_payment}
use expense_splitter.Store.Hoare.{
  Pred, Replies-if, Triple, Triple-pure, Triple-bind, Triple-map, Triple-run, Triple-in_tx,
  Triple-given, Triple-raise_unless, Triple-or_raise, Triple-for_each, Triple-read, ReadsOnly,
  Holds-ok, Triple-read_only,
}
use expense_splitter.Services.Close.{CloseResult, store_plan, close_open_group, close_group}
use expense_splitter.Services.Reads.{principal_by_keycloak_id-Reads, require_group_role-Reads}
use expense_splitter.Services.GroupState.{status_of, group_row_status}
use expense_splitter.Services.GroupState.Quiet.{
  On, Top, run-Same, write_audit-Same, done-Same, create_settlement_run-Quiet,
}
use expense_splitter.Services.GroupState.Settle.{top}
use expense_splitter.Services.GroupState.Close.{Replies-status}

-- What a payment says: its group, who pays whom, how much, and its status.
abbrev pub Said : Type 0
Said = ℕ × ℕ × ℕ × ℤ × PaymentStatus

abbrev pub says : PaymentRow → Said
says p = (p.group_id, p.from_user_id, p.to_user_id, p.amount_baisa, p.status)

-- A transfer of the plan, as a new payment.
abbrev pub pending_transfer : ℕ → Transfer → Said
pending_transfer group_id t = (group_id, t.from, t.to, t.amount, pending)

map-append-cons :
    (xs : List PaymentRow) (p : PaymentRow) (ys : List Said)
    → map says (xs ++ (p ∷ [])) ++ ys ≡ map says xs ++ (says p ∷ ys)
map-append-cons [] p ys = refl
map-append-cons (x ∷ xs) p ys = ap (λ zs. says x ∷ zs) (map-append-cons xs p ys)

module _ (db0 : Db) (id : ℕ) where
  abbrev Still : Pred
  Still db = db ≡ db0

  -- The payments of the plan but for the rest are stored.
  abbrev Stored : List Transfer → List Transfer → List GroupRow → List PaymentRow → Type 0
  Stored plan rest groups payments =
      map says payments ++ map (pending_transfer id) rest
      ≡ map says db0.payments ++ map (pending_transfer id) plan

  mark_closed-Stored :
      (plan : List Transfer)
      → Triple Still (exec (mark_group_closed id)) (λ u. On (Stored plan plan)) Top
  unfolding mark_group_closed
  mark_closed-Stored plan =
      Triple-run (mark_group_closed id) _ (λ db h. tt)
        λ uuid now db h. ap (λ d. map says d.payments ++ map (pending_transfer id) plan) h

  create_payment-Stored :
      (plan rest : List Transfer) (run_id : ℕ) (t : Transfer)
      → Triple
          (On (Stored plan (t ∷ rest)))
          (exec (create_payment run_id id t.from t.to t.amount))
          (λ u. On (Stored plan rest))
          Top
  unfolding create_payment
  create_payment-Stored plan rest run_id t =
      Triple-run _ _ (λ db h. tt)
        λ uuid now db h.
          Replies-if (λ u. On (Stored plan rest)) _ tt db _
            λ valid. map-append-cons db.payments _ (map (pending_transfer id) rest) ∙ h

  finish-Stored :
      (plan rest : List Transfer)
      → Triple
          (On (Stored plan []))
          (elim rest [ [] ↦ exec (mark_group_settled id) | _ ↦ pure tt ])
          (λ u. On (Stored plan []))
          Top
  unfolding mark_group_settled
  finish-Stored plan [] = Triple-run (mark_group_settled id) _ (λ db h. tt) λ uuid now db h. h
  finish-Stored plan (t ∷ rest) = done-Same (Stored plan []) tt

  store_plan-Stored :
      (caller : ℕ) (snapshot : SettlementSnapshot) (plan : List Transfer)
      → Triple Still (store_plan caller id snapshot plan) (λ u. On (Stored plan [])) Top
  unfolding store_plan
  store_plan-Stored caller snapshot plan = Triple-bind (mark_closed-Stored plan) λ u.
      Triple-bind
        (run-Same (Stored plan plan) (top (Stored plan plan)) _ _
          (create_settlement_run-Quiet _ _ _))
        λ run_id.
          Triple-bind
            (Triple-for_each (λ rest. On (Stored plan rest))
              (λ t rest. create_payment-Stored plan rest run_id t) plan)
            λ u.
              Triple-bind (finish-Stored plan plan)
                λ u. write_audit-Same (Stored plan []) (top (Stored plan [])) _ _ _ _ _

  -- What a close returns and stores.
  abbrev pub IsClosedWith : CloseResult → Pred
  IsClosedWith r db =
      (status_of id db0.groups ≡ some group_open)
      × (compute_plan r.snapshot.members ≡ some r.plan)
      × (map says db.payments ≡ map says db0.payments ++ map (pending_transfer id) r.plan)

  read : {A : Type 0} (q : Query A) → ReadsOnly q → Triple Still (exec q) (λ a. Still) Top
  read q h = Triple-read (λ db s. tt) q _ h

  close_open_group-IsClosedWith :
      (caller : ℕ)
      → status_of id db0.groups ≡ some group_open
      → Triple Still (close_open_group caller id) IsClosedWith Top
  unfolding close_open_group list_approved_members sum_paid_by_member sum_spend_by_category
      list_expense_allocations
  close_open_group-IsClosedWith caller was_open =
      Triple-bind (read (list_approved_members id) λ uuid now db. refl) λ members.
        Triple-bind (read (sum_paid_by_member id) λ uuid now db. refl) λ paid.
          Triple-bind (read (sum_spend_by_category id) λ uuid now db. refl) λ cats.
            Triple-bind (read (list_expense_allocations id) λ uuid now db. refl) λ rows.
              Triple-bind
                (Triple-map (λ db h. h) (λ a db h. h.0) (Triple-or_raise (λ db h. tt) _ _))
                λ fair. Triple-bind (Triple-or_raise (λ db h. tt) _ _) λ plan.
                  Triple-given λ computed.
                    Triple-bind (store_plan-Stored caller _ plan)
                      λ u. Triple-pure _ λ db h. (was_open, computed, sym (append-nil _) ∙ h)

  lock_group-open :
      (e : ApiError)
      → Triple Still
          (run (lock_group id) e)
          (λ s db. Still db × (status_of id db0.groups ≡ some s))
          Top
  unfolding lock_group
  lock_group-open e =
      Triple-run {Q = λ s db. Still db × (status_of id db0.groups ≡ some s)} (lock_group id) e
        (λ db h. tt)
        λ uuid now db h.
          Replies-status (λ s db'. Still db' × (status_of id db0.groups ≡ some s)) _ db
            λ g found. (h, ap (λ d. status_of id d.groups) (sym h) ∙ ap group_row_status found)

  is_open-group_open :
      (s : GroupStatus)
      → status_of id db0.groups ≡ some s
      → is_open s ≡ true
      → status_of id db0.groups ≡ some group_open
  is_open-group_open group_open found h = found
  is_open-group_open group_closed found h = ground arith
  is_open-group_open group_settled found h = ground arith

  close_group-IsClosedWith : (subject : ℕ) → Triple Still (close_group subject id) IsClosedWith Top
  unfolding close_group
  close_group-IsClosedWith subject =
      Triple-bind (Triple-read_only (principal_by_keycloak_id-Reads subject _) (λ db h. tt))
        λ caller.
          Triple-bind
            (Triple-read_only (require_group_role-Reads caller id group_admin) (λ db h. tt))
            λ u.
              Triple-in_tx {F = Top} (λ db h. tt)
                (Triple-bind (lock_group-open _) λ s. Triple-given λ found.
                  Triple-bind (Triple-raise_unless (λ db h. tt) (is_open s) _) λ u.
                    Triple-given λ h.
                      close_open_group-IsClosedWith caller.user_id (is_open-group_open s found h))

-- When CloseGroup returns a result, the group was open, the plan is what computePlan makes of the
-- balances of the snapshot, and the payments are those that were there before, followed by one
-- pending payment for each transfer of the plan, in its order.
pub close_group-Stores :
    (subject id : ℕ) (env : Env) (w : World) (r : CloseResult)
    → (close_group subject id env w).0 ≡ ok r
    → IsClosedWith w.db id r (close_group subject id env w).1.db
close_group-Stores subject id env w r h =
    Holds-ok (IsClosedWith w.db id) Top (close_group subject id env w).0
      (close_group subject id env w).1 r
      ((close_group-IsClosedWith w.db id subject).holds env w refl) h
