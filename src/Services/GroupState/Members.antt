-- ===== src/Services/GroupState/Members.antt =====
-- The requests of services/memberships.go against the states of the groups and the payments.
use expense_splitter.Prelude.{ℕ, refl, Bool, true, false, List, ◌==◌, if◌then◌else◌}
use expense_splitter.Types.Membership.{MembershipStatus, group_admin}
use expense_splitter.Types.Principal.{Principal}
use expense_splitter.Store.{GroupRow, PaymentRow, Db}
use expense_splitter.Store.Action.{pure, run}
use expense_splitter.Store.Hoare.{Pred, Triple, Triple-bind}
use expense_splitter.Store.Groups.{get_group_by_invite_token}
use expense_splitter.Store.Memberships.{get_membership, membership_has_expenses}
use expense_splitter.Store.Expenses.{user_has_expense_shares}
use expense_splitter.Services.Authz.{require_group_role}
use expense_splitter.Services.Memberships.{
  request_to_join, set_member_status, transfer_admin, remove_member,
}
use expense_splitter.Services.Reads.{principal_by_keycloak_id-Reads, require_group_role-Reads}
use expense_splitter.Services.GroupState.Quiet.{
  On, Top, run-Same, write_audit-Same, unless-Same, if-Same, lift-Same, done-Same, tx-Same,
  create_join_request-Quiet, decide_join_request-Quiet, demote_group_admin-Quiet,
  promote_to_group_admin-Quiet, delete_membership-Quiet,
}

module _ (K : List GroupRow → List PaymentRow → Type 0) where
  module _ {E : Pred} (pe : (db : Db) → On K db → E db) where
    membership-Same :
        (group_id user_id : ℕ) (e : _)
        → Triple (On K) (run (get_membership group_id user_id) e) (λ m. On K) E
    unfolding get_membership
    membership-Same group_id user_id e =
        run-Same K pe (get_membership group_id user_id) e λ id now db. (refl, refl)

  top : (db : Db) → On K db → Top db
  top db p = tt

  same : (db : Db) → On K db → On K db
  same db p = p

  pub request_to_join-Same :
      (subject token : ℕ) → Triple (On K) (request_to_join subject token) (λ a. On K) (On K)
  unfolding request_to_join get_group_by_invite_token
  request_to_join-Same subject token =
      Triple-bind (principal_by_keycloak_id-Reads subject _) λ caller.
        Triple-bind (lift-Same K same _) λ u.
          Triple-bind
            (run-Same K same (get_group_by_invite_token token) _ λ id now db. (refl, refl))
            λ g.
              Triple-bind (unless-Same K same _ _)
                λ u. run-Same K same _ _ (create_join_request-Quiet _ _)

  pub set_member_status-Same :
      (subject group_id target : ℕ) (decision : MembershipStatus)
      → Triple (On K) (set_member_status subject group_id target decision) (λ a. On K) (On K)
  unfolding set_member_status
  set_member_status-Same subject group_id target decision =
      Triple-bind (principal_by_keycloak_id-Reads subject _) λ caller.
        Triple-bind (require_group_role-Reads caller group_id group_admin) λ u. tx-Same K (
          Triple-bind (run-Same K top _ _ (decide_join_request-Quiet _ _ _))
            λ m. Triple-bind (write_audit-Same K top _ _ _ _ _) λ u. done-Same K m)

  pub transfer_admin-Same :
      (subject group_id target : ℕ)
      → Triple (On K) (transfer_admin subject group_id target) (λ a. On K) (On K)
  unfolding transfer_admin
  transfer_admin-Same subject group_id target =
      Triple-bind (principal_by_keycloak_id-Reads subject _) λ caller.
        Triple-bind (require_group_role-Reads caller group_id group_admin) λ u.
          Triple-bind (membership-Same same group_id target _) λ m.
            Triple-bind (unless-Same K same _ _) λ u. Triple-bind (if-Same K same _ _) λ u.
              tx-Same K (
                Triple-bind (run-Same K top _ _ (demote_group_admin-Quiet _)) λ old.
                  Triple-bind (run-Same K top _ _ (promote_to_group_admin-Quiet _ _))
                    λ m. Triple-bind (write_audit-Same K top _ _ _ _ _) λ u. done-Same K m)

  self_or_admin-Same :
      (self : Bool) (caller : Principal) (group_id : ℕ)
      → Triple
          (On K)
          (if self then pure tt else require_group_role caller group_id group_admin)
          (λ u. On K)
          (On K)
  self_or_admin-Same true caller group_id = done-Same K tt
  self_or_admin-Same false caller group_id = require_group_role-Reads caller group_id group_admin

  pub remove_member-Same :
      (subject group_id target : ℕ)
      → Triple (On K) (remove_member subject group_id target) (λ a. On K) (On K)
  unfolding remove_member membership_has_expenses user_has_expense_shares
  remove_member-Same subject group_id target =
      Triple-bind (principal_by_keycloak_id-Reads subject _) λ caller.
        Triple-bind (self_or_admin-Same (target == caller.user_id) caller group_id) λ u.
          Triple-bind (membership-Same same group_id target _) λ m.
            Triple-bind (if-Same K same _ _) λ u.
              Triple-bind
                (run-Same K same (membership_has_expenses group_id m.id) _
                  λ id now db. (refl, refl))
                λ b. Triple-bind (if-Same K same _ _) λ u.
                  Triple-bind
                    (run-Same K same (user_has_expense_shares group_id target) _
                      λ id now db. (refl, refl))
                    λ c.
                      Triple-bind (if-Same K same _ _)
                        λ u. run-Same K same _ _ (delete_membership-Quiet _)
