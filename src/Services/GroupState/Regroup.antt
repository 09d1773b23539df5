-- ===== src/Services/GroupState/Regroup.antt =====
-- The requests that create, change and delete a group, of services/groups.go and admin.go, against
-- the states of the groups and the payments.
use expense_splitter.Prelude.{
  ℕ, ◌≡◌, refl, Bool, true, false, not, ◌&&◌, List, [], ◌∷◌, ◌++◌, ◌==◌, none, some, if◌then◌else◌,
  arith,
}
use expense_splitter.Types.Membership.{group_admin}
use expense_splitter.Types.Group.{group_open, is_open}
use expense_splitter.Store.{GroupRow, PaymentRow, Db}
use expense_splitter.Store.Action.{row, run, exec}
use expense_splitter.Store.Hoare.{
  Pred, Replies, Triple, Triple-bind, Triple-asks, Triple-run, Replies-if, Replies-update,
}
use expense_splitter.Store.Rows.{find, exists_row, where_rows, update_rows}
use expense_splitter.Store.Groups.{
  GroupFields, fits_group, rewrite_group, create_group_row, update_open_group, delete_group,
  get_group_status, get_group_by_id, group_has_history,
}
use expense_splitter.Store.Memberships.{create_group_admin_membership, delete_group_memberships}
use expense_splitter.Services.Groups.{CreateGroupRequest, create_group, update_group}
use expense_splitter.Services.Admin.{admin_delete_group}
use expense_splitter.Services.Reads.{principal_by_keycloak_id-Reads, require_group_role-Reads}
use expense_splitter.Services.Atomic.Admin.{resolve_admin-Reads, global_admin_caller-Reads}
use expense_splitter.Services.GroupState.{status_of, Consistent}
use expense_splitter.Services.GroupState.Rows.{exists-count}
use expense_splitter.Services.GroupState.Quiet.{
  Quiet, On, Top, On-Stable, run-Same, unless-Same, if-Same, done-Same, tx-Same,
}
use expense_splitter.Services.GroupState.Settle.{top}
use expense_splitter.Services.Frame.{write_system_audit-Stable}

create_group_admin_membership-Quiet : (g u : ℕ) → Quiet (create_group_admin_membership g u)
unfolding create_group_admin_membership
create_group_admin_membership-Quiet g u id now db = ground arith

delete_group_memberships-Quiet : (g : ℕ) → Quiet (delete_group_memberships g)
unfolding delete_group_memberships
delete_group_memberships-Quiet g id now db = ground arith

-- What a new group, new metadata of an open group, and the loss of a group without payments keep.
pub record Regroups (K : List GroupRow → List PaymentRow → Type 0) : Type 0 where
  pub grows :
      (groups : List GroupRow) (payments : List PaymentRow) (g : GroupRow)
      → exists_row (λ x. x.id == g.id) groups ≡ false
      → g.status ≡ group_open
      → K groups payments
      → K (groups ++ (g ∷ [])) payments
  pub rewrites :
      (groups : List GroupRow) (payments : List PaymentRow) (id : ℕ) (f : GroupFields)
      → K groups payments
      → K (update_rows (λ x. (x.id == id) && is_open x.status) (rewrite_group f) groups) payments
  pub drops :
      (groups : List GroupRow) (payments : List PaymentRow) (id : ℕ)
      → exists_row (λ p. p.group_id == id) payments ≡ false
      → K groups payments
      → K (where_rows (λ g. not (g.id == id)) groups) payments

-- `delete_group` answers in both cases.
Replies-if_else :
    {A : Type 0} (Q : A → Pred) (b : Bool) (x y : A) (db db' : Db)
    → Q x db
    → (b ≡ false → Q y db')
    → Replies Q (if b then (row x, db) else (row y, db'))
Replies-if_else Q true x y db db' h k = h
Replies-if_else Q false x y db db' h k = k refl

module _ (K : List GroupRow → List PaymentRow → Type 0) (regroups : Regroups K) where
  same : (db : Db) → On K db → On K db
  same db p = p

  create_row-Keeps :
      (invite_token status_token : ℕ) (f : GroupFields) (created_by : ℕ)
      → Triple
          (On K)
          (exec (create_group_row invite_token status_token f created_by))
          (λ g. On K)
          Top
  unfolding create_group_row
  create_row-Keeps invite_token status_token f created_by =
      Triple-run (create_group_row invite_token status_token f created_by) _ (top K) λ id now db p.
        Replies-if (λ g. On K) _ _ db _
          λ fits. regroups.grows db.groups db.payments _ (ground (arith, fits)) refl p

  pub create_group-Keeps :
      (subject : ℕ) (req : CreateGroupRequest)
      → Triple (On K) (create_group subject req) (λ g. On K) (On K)
  unfolding create_group
  create_group-Keeps subject req = Triple-asks λ env.
      Triple-bind (principal_by_keycloak_id-Reads subject _) λ caller.
        Triple-bind (resolve_admin-Reads _ caller req.admin_user_id) λ admin. tx-Same K (
          Triple-bind (create_row-Keeps _ _ _ _) λ g.
            Triple-bind (run-Same K (top K) _ _ (create_group_admin_membership-Quiet _ _))
              λ u. done-Same K g)

  update_row-Keeps :
      (f : GroupFields) (id : ℕ) (e : _)
      → Triple (On K) (run (update_open_group f id) e) (λ g. On K) (On K)
  unfolding update_open_group
  update_row-Keeps f x e = Triple-run (update_open_group f x) e same λ id now db p.
      Replies-update (On K) (find (λ g. (g.id == x) && is_open g.status) db.groups)
        (λ g. fits_group f) (rewrite_group f) db _
        (λ g found. regroups.rewrites db.groups db.payments x f p)

  pub update_group-Keeps :
      (subject group_id : ℕ) (req : GroupFields)
      → Triple (On K) (update_group subject group_id req) (λ g. On K) (On K)
  unfolding update_group get_group_status
  update_group-Keeps subject group_id req =
      Triple-bind (principal_by_keycloak_id-Reads subject _) λ caller.
        Triple-bind (require_group_role-Reads caller group_id group_admin) λ u.
          Triple-bind (run-Same K same (get_group_status group_id) _ λ id now db. (refl, refl))
            λ s. Triple-bind (unless-Same K same _ _) λ u. update_row-Keeps req group_id _

  delete_row-Keeps : (group_id : ℕ) → Triple (On K) (exec (delete_group group_id)) (λ d. On K) Top
  unfolding delete_group
  delete_row-Keeps group_id = Triple-run (delete_group group_id) _ (top K) λ id now db p.
      Replies-if_else (λ d. On K) _ _ _ db _ p
        λ free. regroups.drops db.groups db.payments group_id (ground (arith, free)) p

  pub admin_delete_group-Keeps :
      (subject group_id : ℕ)
      → Triple (On K) (admin_delete_group subject group_id) (λ u. On K) (On K)
  unfolding admin_delete_group get_group_by_id group_has_history
  admin_delete_group-Keeps subject group_id =
      Triple-bind (global_admin_caller-Reads subject) λ caller.
        Triple-bind (run-Same K same (get_group_by_id group_id) _ λ id now db. (refl, refl)) λ g.
          Triple-bind (run-Same K same (group_has_history group_id) _ λ id now db. (refl, refl))
            λ h. Triple-bind (if-Same K same _ _) λ u. tx-Same K (
              Triple-bind (run-Same K (top K) _ _ (delete_group_memberships-Quiet group_id)) λ u.
                Triple-bind (delete_row-Keeps group_id) λ deleted.
                  Triple-bind (unless-Same K (top K) _ _)
                    λ u. write_system_audit-Stable (On-Stable K) (top K) _ _ _)

status_of-append :
    (j : ℕ) (groups : List GroupRow) (g : GroupRow)
    → exists_row (λ x. x.id == g.id) groups ≡ false
    → g.status ≡ group_open
    → status_of j (groups ++ (g ∷ [])) ≡ (if j == g.id then some group_open else status_of j groups)
unfolding find exists_row
status_of-append j [] g new h = ground arith
status_of-append j (x ∷ groups) g new h = ground (arith, status_of-append j groups g)

status_of-rewrite :
    (j id : ℕ) (f : GroupFields) (groups : List GroupRow)
    → status_of j (update_rows (λ x. (x.id == id) && is_open x.status) (rewrite_group f) groups)
      ≡ status_of j groups
unfolding find update_rows
status_of-rewrite j id f [] = refl
status_of-rewrite j id f (x ∷ groups) = ground (arith, status_of-rewrite j id f groups)

status_of-drop :
    (j id : ℕ) (groups : List GroupRow)
    → status_of j (where_rows (λ g. not (g.id == id)) groups)
      ≡ (if j == id then none else status_of j groups)
unfolding find where_rows
status_of-drop j id [] = ground arith
status_of-drop j id (x ∷ groups) = ground (arith, status_of-drop j id groups)

status_of-absent :
    (j : ℕ) (groups : List GroupRow)
    → exists_row (λ x. x.id == j) groups ≡ false
    → status_of j groups ≡ none
unfolding find exists_row
status_of-absent j [] h = refl
status_of-absent j (x ∷ groups) h = ground (arith, status_of-absent j groups)

pub Consistent-Regroups : Regroups Consistent
Consistent-Regroups = record {
  grows = λ groups payments g new is_new_open c. (
    (λ j.
        rw (status_of-append j groups g new is_new_open)
          (ground (arith, c.0 j, status_of-absent g.id groups new))),
    c.1,
  );
  rewrites = λ groups payments id f c. ((λ j. rw (status_of-rewrite j id f groups) (c.0 j)), c.1);
  drops = λ groups payments id free c. (
    (λ j.
        rw (status_of-drop j id groups)
          (ground (arith, c.0 j, exists-count (λ p. p.group_id == id) payments free))),
    c.1,
  );
}
