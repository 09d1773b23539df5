-- ===== src/Services/Deletion/Group.antt =====
-- What `AdminDeleteGroup` of services/admin.go demands, and what it writes.
use Prim.Native.String.{String}
use expense_splitter.Prelude.{
  ℕ, ◌≡◌, refl, Bool, true, false, not, ◌||◌, none, some, ◌==◌, arith, if◌then◌else◌,
}
use expense_splitter.Types.ApiError.{ApiError, ok}
use expense_splitter.Types.Principal.{Principal}
use expense_splitter.Store.{GroupRow, absent, deleted_group_audit, Db}
use expense_splitter.Store.Action.{Env, World, row, run}
use expense_splitter.Store.Rows.{find, one, exists_row, where_rows}
use expense_splitter.Store.Hoare.{
  Replies, Holds-ok, Triple, Triple-pure, Triple-bind, Triple-map, Triple-given, Triple-run,
  Triple-in_tx, Triple-raise_if, Triple-raise_unless, Triple-lift,
}
use expense_splitter.Store.Groups.{get_group_by_id, group_has_history, is_of_group, delete_group}
use expense_splitter.Store.Memberships.{delete_group_memberships}
use expense_splitter.Store.Audit.{write_system_audit}
use expense_splitter.Services.Authz.{require_global_admin}
use expense_splitter.Services.Admin.{global_admin_caller, admin_delete_group}
use expense_splitter.Services.Frame.{Anywhere, anywhere}
use expense_splitter.Services.Readings.{Still, one-row, run-Reading}
use expense_splitter.Services.Creation.{IsCaller, Replies-unless, principal_by_keycloak_id-IsCaller}
use expense_splitter.Services.Deletion.{with_entry, run_audit}

require_global_admin-true :
    (p : Principal) → require_global_admin p ≡ ok tt → p.is_global_admin ≡ true
unfolding require_global_admin
require_global_admin-true p h = ground (arith, h)

none_of :
    (a b c d h : Bool)
    → row (a || b || c || d) ≡ row h
    → h ≡ false
    → (a ≡ false) × (b ≡ false) × (c ≡ false) × (d ≡ false)
none_of false false false false h e k = (refl, refl, refl, refl)
none_of true b c d h e k = ground (arith, e, k)
none_of false true c d h e k = ground (arith, e, k)
none_of false false true d h e k = ground (arith, e, k)
none_of false false false true h e k = ground (arith, e, k)

module _ (db0 : Db) where
  -- Nothing refers to the group but its memberships.
  abbrev pub HasNoHistory : ℕ → Type 0
  HasNoHistory group_id =
      (exists_row (λ e. e.group_id == group_id) db0.expenses ≡ false)
      × (exists_row (λ p. p.group_id == group_id) db0.payments ≡ false)
      × (exists_row (λ r. r.group_id == group_id) db0.settlement_runs ≡ false)
      × (exists_row (λ e. is_of_group group_id e.group_id) db0.audit_log ≡ false)

  -- The caller is a global admin, and the group has neither expenses nor payments, settlements or
  -- audit entries.
  abbrev pub IsErasable : ℕ → ℕ → Principal → GroupRow → Type 0
  IsErasable subject group_id caller g =
      IsCaller db0 subject caller
      × (caller.is_global_admin ≡ true)
      × (find (λ x. x.id == group_id) db0.groups ≡ some g)
      × HasNoHistory group_id

  -- The rows of the group and of its memberships are gone, and the deletion is logged.
  abbrev pub without_group : ℕ → Principal → String → Db
  without_group group_id caller name =
      with_entry
        (record {
          group_id = none;
          actor_user_id = caller.user_id;
          action = "group.deleted";
          before = deleted_group_audit group_id name;
          after = absent;
        })
        (record db0 {
          memberships = where_rows (λ m. not (m.group_id == group_id)) db0.memberships;
          groups = where_rows (λ x. not (x.id == group_id)) db0.groups;
        })

  abbrev without_members : ℕ → Db
  without_members group_id = record db0 {
    memberships = where_rows (λ m. not (m.group_id == group_id)) db0.memberships;
  }

  abbrev without_both : ℕ → Db
  without_both group_id = record db0 {
    memberships = where_rows (λ m. not (m.group_id == group_id)) db0.memberships;
    groups = where_rows (λ x. not (x.id == group_id)) db0.groups;
  }

  global_admin_caller-IsCaller :
      (subject : ℕ)
      → Triple
          (Still db0)
          (global_admin_caller subject)
          (λ p db. Still db0 db × (IsCaller db0 subject p × (p.is_global_admin ≡ true)))
          Anywhere
  unfolding global_admin_caller
  global_admin_caller-IsCaller subject =
      Triple-bind (principal_by_keycloak_id-IsCaller db0 subject _) λ p. Triple-given λ c.
        Triple-bind (Triple-lift (anywhere _) (require_global_admin p)) λ u.
          Triple-given
            λ allowed. Triple-pure _ λ db h. (h, (c, require_global_admin-true p allowed))

  run-delete_memberships :
      (group_id : ℕ) (e : ApiError)
      → Triple
          (Still db0)
          (run (delete_group_memberships group_id) e)
          (λ u. Still (without_members group_id))
          Anywhere
  unfolding delete_group_memberships
  run-delete_memberships group_id e = Triple-run _ e (anywhere _) λ i now db h.
      rw h (Replies-unless (λ u. Still (without_members group_id)) _ tt db0 _ (λ k. refl))

  -- The group is deleted, or the reply says that it is not.
  Replies-deleted :
      (b : Bool) (db1 db2 : Db)
      → Replies
          (λ deleted db. deleted ≡ true → db ≡ db2)
          (if b then (row false, db1) else (row true, db2))
  Replies-deleted true db1 db2 = λ h. ground (arith, h)
  Replies-deleted false db1 db2 = λ h. refl

  run-delete_group :
      (group_id : ℕ) (e : ApiError)
      → Triple
          (Still (without_members group_id))
          (run (delete_group group_id) e)
          (λ deleted db. deleted ≡ true → Still (without_both group_id) db)
          Anywhere
  unfolding delete_group
  run-delete_group group_id e =
      Triple-run _ e (anywhere _)
        λ i now db h. rw h (Replies-deleted _ (without_members group_id) (without_both group_id))

  run-group_has_history :
      (group_id : ℕ) (e : ApiError)
      → Triple
          (Still db0)
          (run (group_has_history group_id) e)
          (λ h db. Still db0 db × (h ≡ false → HasNoHistory group_id))
          Anywhere
  unfolding group_has_history
  run-group_has_history group_id e =
      Triple-map (λ db h. h) (λ r db h. (h.0, none_of _ _ _ _ r h.1))
        (run-Reading db0 (λ db. (group_has_history group_id 0 0 db).0) e)

  run-get_group :
      (group_id : ℕ) (e : ApiError)
      → Triple
          (Still db0)
          (run (get_group_by_id group_id) e)
          (λ g db. Still db0 db × (find (λ x. x.id == group_id) db0.groups ≡ some g))
          Anywhere
  unfolding get_group_by_id
  run-get_group group_id e =
      Triple-map (λ db h. h) (λ g db h. (h.0, one-row _ g h.1))
        (run-Reading db0 (λ db. one (find (λ x. x.id == group_id) db.groups)) e)

  admin_delete_group-IsErasable :
      (subject group_id : ℕ)
      → Triple
          (Still db0)
          (admin_delete_group subject group_id)
          (λ u db.
            (caller : Principal) × (g : GroupRow) × IsErasable subject group_id caller g
            × (db ≡ without_group group_id caller g.name))
          Anywhere
  unfolding admin_delete_group write_system_audit
  admin_delete_group-IsErasable subject group_id =
      Triple-bind (global_admin_caller-IsCaller subject) λ caller. Triple-given λ c.
        Triple-bind (run-get_group group_id _) λ g. Triple-given λ found.
          Triple-bind (run-group_has_history group_id _) λ h. Triple-given λ clean.
            Triple-bind (Triple-raise_if (anywhere _) _ _) λ u. Triple-given λ no_history.
              Triple-in_tx (anywhere _) (
                Triple-bind (run-delete_memberships group_id _) λ u.
                  Triple-bind (run-delete_group group_id _) λ deleted.
                    Triple-bind (Triple-raise_unless (anywhere _) deleted _) λ u.
                      Triple-map (λ db k. k.0 k.1)
                        (λ u db k. (caller, g, (c.0, c.1, found, clean no_history), k))
                        (run_audit (without_both group_id) _ _))

-- When AdminDeleteGroup succeeds, the account is a global admin's, the group exists and has no
-- expenses, payments, settlements or audit entries, and all that changes is that the group and its
-- memberships are gone and one audit entry names it.
pub admin_delete_group-Erases :
    (subject group_id : ℕ) (env : Env) (w : World)
    → (admin_delete_group subject group_id env w).0 ≡ ok tt
    → (caller : Principal) × (g : GroupRow) × IsErasable w.db subject group_id caller g
      × ((admin_delete_group subject group_id env w).1.db
          ≡ without_group w.db group_id caller g.name)
admin_delete_group-Erases subject group_id env w e =
    let r = admin_delete_group subject group_id env w in
    Holds-ok
      (λ u db.
        (caller : Principal) × (g : GroupRow) × IsErasable w.db subject group_id caller g
        × (db ≡ without_group w.db group_id caller g.name))
      Anywhere r.0 r.1 tt ((admin_delete_group-IsErasable w.db subject group_id).holds env w refl) e
