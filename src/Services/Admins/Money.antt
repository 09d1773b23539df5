-- ===== src/Services/Admins/Money.antt =====
-- The requests of services/payments.go, proofs.go and close.go, and `UpdateGroup` of
-- services/groups.go: which groups exist, and their memberships, stay.
use expense_splitter.Prelude.{
  ℕ, ◌≡◌, refl, Bool, true, false, ◌&&◌, List, [], ◌∷◌, ◌==◌, Option, if◌then◌else◌, arith,
}
use expense_splitter.Prelude.Int.{ℤ}
use expense_splitter.Types.Membership.{group_admin}
use expense_splitter.Types.Group.{group_closed, group_settled, is_open, is_closed}
use expense_splitter.Types.Payment.{PaymentStatus, is_settled}
use expense_splitter.Types.Principal.{Principal}
use expense_splitter.Payment.{PaymentAction, PaymentActor}
use expense_splitter.Settlement.Plan.{Transfer}
use expense_splitter.Store.{PaymentRow, SettlementSnapshot, Db}
use expense_splitter.Store.Action.{Action, pure, exec, or_raise}
use expense_splitter.Store.Rows.{exists_row}
use expense_splitter.Store.Hoare.{
  Pred, Triple, Triple-bind, Triple-asks, Triple-or_raise, Triple-map,
}
use expense_splitter.Store.Groups.{
  GroupFields, get_group_status, update_open_group, rewrite_group, lock_group, mark_group_closed,
  mark_group_settled,
}
use expense_splitter.Store.Memberships.{get_membership, list_approved_members}
use expense_splitter.Store.Expenses.{
  sum_paid_by_member, sum_spend_by_category, list_expense_allocations,
}
use expense_splitter.Store.Settlement.{
  get_payment, transition_payment_row, count_unsettled_payments, create_payment,
}
use expense_splitter.Services.Payments.{settle_group_if_done, advance_payment, transition_payment}
use expense_splitter.Services.Proofs.{submit_image_proof}
use expense_splitter.Services.Close.{store_plan, close_open_group, close_group}
use expense_splitter.Services.Groups.{update_group}
use expense_splitter.Services.Reads.{principal_by_keycloak_id-Reads, require_group_role-Reads}
use expense_splitter.Services.Frame.{
  Frame, Within, Stable, Steady, Anywhere, anywhere, stays, run-Stable, try_run-Stable,
  write_audit-Stable, unless-Keeps, lift-Keeps, done-Keeps, for_each-Keeps, tx-Keeps,
  create_settlement_run-Steady,
}
use expense_splitter.Services.Frame.Proofs.{Aside, store_image_proof-Aside}
use expense_splitter.Services.Admins.Rows.{exists_row-update}

-- The ids of the groups and the memberships stay.
abbrev pub SameMembers : Frame
SameMembers db db' =
    ((g : ℕ) → exists_row (λ x. x.id == g) db'.groups ≡ exists_row (λ x. x.id == g) db.groups)
    × (db'.memberships ≡ db.memberships)

Steady-SameMembers : (db db' : Db) → Steady db db' → SameMembers db db'
Steady-SameMembers db db' same = ((λ g. rw same.0 refl), same.1)

transition_payment_row-Same :
    (t : PaymentStatus) (id version : ℕ) → Within SameMembers (transition_payment_row t id version)
unfolding transition_payment_row
transition_payment_row-Same t x version id now db = ((λ g. ground arith), ground arith)

create_payment-Same : (r g f t : ℕ) (a : ℤ) → Within SameMembers (create_payment r g f t a)
unfolding create_payment
create_payment-Same r g f t a id now db = ((λ h. ground arith), ground arith)

mark_group_settled-Same : (id : ℕ) → Within SameMembers (mark_group_settled id)
unfolding mark_group_settled
mark_group_settled-Same x id now db = (
  (λ g.
      exists_row-update (λ y. y.id == g) (λ y. (y.id == x) && is_closed y.status)
        (λ y. record y { status = group_settled }) (λ y. refl) db.groups),
  refl,
)

mark_group_closed-Same : (id : ℕ) → Within SameMembers (mark_group_closed id)
unfolding mark_group_closed
mark_group_closed-Same x id now db = (
  (λ g.
      exists_row-update (λ y. y.id == g) (λ y. y.id == x) (λ y. record y { status = group_closed })
        (λ y. refl) db.groups),
  refl,
)

update_open_group-Same : (f : GroupFields) (id : ℕ) → Within SameMembers (update_open_group f id)
unfolding update_open_group
update_open_group-Same f x id now db = (
  (λ g. ground (
    arith,
    exists_row-update (λ y. y.id == g) (λ y. (y.id == x) && is_open y.status) (rewrite_group f)
        (λ y. refl) db.groups,
  )),
  ground arith,
)

module _ {P : Pred} (stable : Stable SameMembers P) where
  pub steady : Stable Steady P
  steady db db' same p = stable db db' (Steady-SameMembers db db' same) p

  none_left :
      (b : Bool) (m : Action (Unit {0}))
      → Triple P m (λ u. P) Anywhere
      → Triple P (if b then m else pure tt) (λ u. P) Anywhere
  none_left true m h = h
  none_left false m h = done-Keeps tt

  settle_group_if_done-Keeps :
      (group_id caller : ℕ) → Triple P (settle_group_if_done group_id caller) (λ u. P) Anywhere
  unfolding settle_group_if_done count_unsettled_payments
  settle_group_if_done-Keeps group_id caller =
      Triple-bind
        (run-Stable steady (anywhere _) (count_unsettled_payments group_id) _
          λ id now db. (refl, refl, refl))
        λ n. none_left (n == 0) _ (
          Triple-bind
            (run-Stable stable (anywhere _) (mark_group_settled group_id) _
              (mark_group_settled-Same group_id))
            λ u. write_audit-Stable steady (anywhere _) _ _ _ _ _)

  advance_payment-Keeps :
      (caller : Principal) (pid : ℕ) (p : PaymentRow) (actor : PaymentActor)
      (action : PaymentAction) (side : Action (Unit {0}))
      → Aside side
      → Triple P (advance_payment caller pid p actor action side) (λ q. P) Anywhere
  unfolding advance_payment
  advance_payment-Keeps caller pid p actor action side aside =
      Triple-bind (unless-Keeps (anywhere _) _ _) λ u. Triple-bind (lift-Keeps (anywhere _) _) λ t.
        Triple-bind (aside P steady) λ u.
          Triple-bind
            (run-Stable stable (anywhere _) (transition_payment_row t pid p.version) _
              (transition_payment_row-Same t pid p.version))
            λ updated. Triple-bind (write_audit-Stable steady (anywhere _) _ _ _ _ _) λ u.
              Triple-bind (none_left (is_settled t) _ (settle_group_if_done-Keeps _ _))
                λ u. done-Keeps updated

  pub transition_payment-Keeps :
      (subject pid : ℕ) (action : PaymentAction) (side : Action (Unit {0}))
      → Aside side
      → Triple P (transition_payment subject pid action side) (λ q. P) P
  unfolding transition_payment get_payment get_membership
  transition_payment-Keeps subject pid action side aside =
      Triple-bind (principal_by_keycloak_id-Reads subject _) λ caller. tx-Keeps (
        Triple-bind
          (run-Stable steady (anywhere _) (get_payment pid) _ λ id now db. (refl, refl, refl))
          λ p.
            Triple-bind
              (try_run-Stable steady (anywhere _) (get_membership p.group_id caller.user_id)
                λ id now db. (refl, refl, refl))
              λ m. advance_payment-Keeps caller pid p _ action side aside)

  pub submit_image_proof-Keeps :
      (subject pid : ℕ) (image : List ℕ)
      → Triple P (submit_image_proof subject pid image) (λ q. P) P
  unfolding submit_image_proof
  submit_image_proof-Keeps subject pid image = Triple-asks λ env.
      Triple-bind (unless-Keeps (stays _) _ _)
        λ u. transition_payment-Keeps subject pid _ _ (store_image_proof-Aside pid image)

  end_of_plan :
      (group_id : ℕ) (plan : List Transfer)
      → Triple P
          (elim plan [ [] ↦ exec (mark_group_settled group_id) | _ ↦ pure tt ])
          (λ u. P)
          Anywhere
  end_of_plan group_id [] =
      run-Stable stable (anywhere _) (mark_group_settled group_id) _
        (mark_group_settled-Same group_id)
  end_of_plan group_id (t ∷ plan) = done-Keeps tt

  store_plan-Keeps :
      (caller group_id : ℕ) (snapshot : SettlementSnapshot) (plan : List Transfer)
      → Triple P (store_plan caller group_id snapshot plan) (λ u. P) Anywhere
  unfolding store_plan
  store_plan-Keeps caller group_id snapshot plan =
      Triple-bind
        (run-Stable stable (anywhere _) (mark_group_closed group_id) _
          (mark_group_closed-Same group_id))
        λ u.
          Triple-bind (run-Stable steady (anywhere _) _ _ (create_settlement_run-Steady _ _ _))
            λ run_id.
              Triple-bind
                (for_each-Keeps
                  (λ t. run-Stable stable (anywhere _) _ _ (create_payment-Same _ _ _ _ _)) plan)
                λ u.
                  Triple-bind (end_of_plan group_id plan)
                    λ u. write_audit-Stable steady (anywhere _) _ _ _ _ _

  or_raise-Keeps : {A : Type 0} (e : _) (o : Option A) → Triple P (or_raise e o) (λ a. P) Anywhere
  or_raise-Keeps e o = Triple-map (λ db p. p) (λ a db p. p.0) (Triple-or_raise (anywhere _) e o)

  close_open_group-Keeps :
      (caller group_id : ℕ) → Triple P (close_open_group caller group_id) (λ r. P) Anywhere
  unfolding close_open_group list_approved_members sum_paid_by_member sum_spend_by_category
      list_expense_allocations
  close_open_group-Keeps caller group_id =
      Triple-bind
        (run-Stable steady (anywhere _) (list_approved_members group_id) _
          λ id now db. (refl, refl, refl))
        λ members.
          Triple-bind
            (run-Stable steady (anywhere _) (sum_paid_by_member group_id) _
              λ id now db. (refl, refl, refl))
            λ paid.
              Triple-bind
                (run-Stable steady (anywhere _) (sum_spend_by_category group_id) _
                  λ id now db. (refl, refl, refl))
                λ cats.
                  Triple-bind
                    (run-Stable steady (anywhere _) (list_expense_allocations group_id) _
                      λ id now db. (refl, refl, refl))
                    λ rows. Triple-bind (or_raise-Keeps _ _) λ fair.
                      Triple-bind (or_raise-Keeps _ _)
                        λ plan. Triple-bind (store_plan-Keeps _ _ _ _) λ u. done-Keeps _

  pub close_group-Keeps :
      (subject group_id : ℕ) → Triple P (close_group subject group_id) (λ r. P) P
  unfolding close_group lock_group
  close_group-Keeps subject group_id =
      Triple-bind (principal_by_keycloak_id-Reads subject _) λ caller.
        Triple-bind (require_group_role-Reads caller group_id group_admin) λ u. tx-Keeps (
          Triple-bind
            (run-Stable steady (anywhere _) (lock_group group_id) _ λ id now db. (refl, refl, refl))
            λ s.
              Triple-bind (unless-Keeps (anywhere _) _ _)
                λ u. close_open_group-Keeps caller.user_id group_id)

  pub update_group-Keeps :
      (subject group_id : ℕ) (req : GroupFields)
      → Triple P (update_group subject group_id req) (λ g. P) P
  unfolding update_group get_group_status
  update_group-Keeps subject group_id req =
      Triple-bind (principal_by_keycloak_id-Reads subject _) λ caller.
        Triple-bind (require_group_role-Reads caller group_id group_admin) λ u.
          Triple-bind
            (run-Stable steady (stays _) (get_group_status group_id) _
              λ id now db. (refl, refl, refl))
            λ s.
              Triple-bind (unless-Keeps (stays _) _ _)
                λ u. run-Stable stable (stays _) _ _ (update_open_group-Same req group_id)
