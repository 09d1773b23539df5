-- ===== src/Services/Admins/Leaving.antt =====
-- `RemoveMember` of services/memberships.go against the group admins: the membership that goes is
-- not the admin's.
use expense_splitter.Prelude.{ℕ, ◌≡◌, refl, false, not, ◌&&◌, some, ◌==◌, arith}
use expense_splitter.Types.Membership.{is_group_admin_role}
use expense_splitter.Store.{MembershipRow}
use expense_splitter.Store.Action.{Query, run, exec}
use expense_splitter.Store.Rows.{find}
use expense_splitter.Store.Hoare.{
  Pred, ReadsOnly, Triple, Triple-bind, Triple-run, Triple-read, Triple-raise_if, Triple-given,
}
use expense_splitter.Store.Memberships.{
  is_member, is_admin_of, get_membership, membership_has_expenses, delete_membership,
}
use expense_splitter.Store.Expenses.{user_has_expense_shares}
use expense_splitter.Services.Memberships.{remove_member}
use expense_splitter.Services.Reads.{principal_by_keycloak_id-Reads}
use expense_splitter.Services.Atomic.Members.{self_or_admin-Reads}
use expense_splitter.Services.Frame.{stays, if-Keeps}
use expense_splitter.Services.GroupState.Settle.{Replies-one}
use expense_splitter.Services.Admins.{HasOneAdmin}
use expense_splitter.Services.Admins.Tidy.{Replies-delete, IsTidy-where}
use expense_splitter.Services.Admins.Rows.{count_rows-le, count_rows-where, count-found}

abbrev Found : ℕ → ℕ → MembershipRow → Pred
Found group_id user_id m db =
    HasOneAdmin db × (find (is_member group_id user_id) db.memberships ≡ some m)

get_membership-Found :
    (group_id user_id : ℕ) (e : _)
    → Triple HasOneAdmin
        (run (get_membership group_id user_id) e)
        (λ m. Found group_id user_id m)
        HasOneAdmin
unfolding get_membership
get_membership-Found group_id user_id e =
    Triple-run (get_membership group_id user_id) e (stays _) λ id now db p.
      Replies-one (Found group_id user_id) (find (is_member group_id user_id) db.memberships) db
        λ m found. (p, found)

delete_membership-OneAdmin :
    (group_id user_id : ℕ) (m : MembershipRow)
    → is_group_admin_role m.role ≡ false
    → Triple
        (Found group_id user_id m)
        (exec (delete_membership m.id))
        (λ u. HasOneAdmin)
        HasOneAdmin
unfolding delete_membership
delete_membership-OneAdmin group_id user_id m plain =
    Triple-run (delete_membership m.id) _ (λ db p. p.0)
      λ id now db p.
        Replies-delete HasOneAdmin (find (λ n. n.id == m.id) db.memberships) _ db _ p.0 (
          (λ g. ground (
            arith,
            p.0.0 g,
            count_rows-where (is_admin_of g) (λ n. not (n.id == m.id)) db.memberships
                (ground (
                  arith,
                  count-found (is_member group_id user_id) (is_admin_of g) db.memberships m p.1
                      (ground arith) (p.0.1.2 m.id),
                  count_rows-le (λ n. is_admin_of g n && (n.id == m.id))
                      (λ n. is_admin_of g n && not (not (n.id == m.id))) (λ n h. ground (arith, h))
                      db.memberships,
                )),
          )),
          IsTidy-where (λ n. not (n.id == m.id)) db.memberships p.0.1,
        )

found-Reads :
    (group_id user_id : ℕ) (m : MembershipRow) {A : Type 0} (q : Query A) (e : _)
    → ReadsOnly q
    → Triple (Found group_id user_id m) (run q e) (λ a. Found group_id user_id m) HasOneAdmin
found-Reads group_id user_id m q e h = Triple-read (λ db p. p.0) q e h

pub remove_member-OneAdmin :
    (subject group_id target : ℕ)
    → Triple HasOneAdmin (remove_member subject group_id target) (λ u. HasOneAdmin) HasOneAdmin
unfolding remove_member membership_has_expenses user_has_expense_shares
remove_member-OneAdmin subject group_id target =
    Triple-bind (principal_by_keycloak_id-Reads subject _) λ caller.
      Triple-bind (self_or_admin-Reads (target == caller.user_id) caller group_id) λ u.
        Triple-bind (get_membership-Found group_id target _) λ m.
          Triple-bind (Triple-raise_if (λ db p. p.0) _ _) λ u. Triple-given λ plain.
            Triple-bind
              (found-Reads group_id target m (membership_has_expenses group_id m.id) _
                λ id now db. refl)
              λ b. Triple-bind (if-Keeps (λ db p. p.0) _ _) λ u.
                Triple-bind
                  (found-Reads group_id target m (user_has_expense_shares group_id target) _
                    λ id now db. refl)
                  λ c.
                    Triple-bind (if-Keeps (λ db p. p.0) _ _)
                      λ u. delete_membership-OneAdmin group_id target m plain
