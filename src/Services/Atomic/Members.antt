-- ===== src/Services/Atomic/Members.antt =====
-- What the requests of services/memberships.go and verification.go leave when they fail.
use expense_splitter.Prelude.{ℕ, refl, Bool, true, false, ◌==◌, if◌then◌else◌}
use expense_splitter.Types.Membership.{MembershipStatus, group_admin}
use expense_splitter.Types.Principal.{
  Principal, VerificationStatus, registered, pending_verification, verified, rejected,
}
use expense_splitter.Store.Action.{pure}
use expense_splitter.Store.Hoare.{Pred, Triple, Triple-pure, Triple-bind}
use expense_splitter.Services.Authz.{require_group_role}
use expense_splitter.Store.Groups.{get_group_by_invite_token}
use expense_splitter.Store.Memberships.{get_membership, membership_has_expenses}
use expense_splitter.Store.Expenses.{user_has_expense_shares}
use expense_splitter.Services.Memberships.{
  request_to_join, set_member_status, transfer_admin, remove_member,
}
use expense_splitter.Services.Verification.{submit_verification, set_verification, ask_verification}
use expense_splitter.Services.Reads.{
  Anything, principal_by_keycloak_id-Reads, require_group_role-Reads, in_tx-Atomic, run-Atomic,
  caller-Reads, unless-Reads, if-Reads, lift-Reads, read,
}

module _ {P : Pred} where
  pub request_to_join-Atomic :
      (subject token : ℕ) → Triple P (request_to_join subject token) Anything P
  unfolding request_to_join get_group_by_invite_token
  request_to_join-Atomic subject token = Triple-bind (caller-Reads subject) λ caller.
      Triple-bind (lift-Reads _) λ u.
        Triple-bind (read (get_group_by_invite_token token) _ λ id now db. refl)
          λ g. Triple-bind (unless-Reads _ _) λ u. run-Atomic _ _

  pub set_member_status-Atomic :
      (subject group_id target : ℕ) (decision : MembershipStatus)
      → Triple P (set_member_status subject group_id target decision) Anything P
  unfolding set_member_status
  set_member_status-Atomic subject group_id target decision =
      Triple-bind (caller-Reads subject) λ caller.
        Triple-bind (require_group_role-Reads caller group_id group_admin) λ u. in_tx-Atomic _

  pub transfer_admin-Atomic :
      (subject group_id target : ℕ) → Triple P (transfer_admin subject group_id target) Anything P
  unfolding transfer_admin get_membership
  transfer_admin-Atomic subject group_id target = Triple-bind (caller-Reads subject) λ caller.
      Triple-bind (require_group_role-Reads caller group_id group_admin) λ u.
        Triple-bind (read (get_membership group_id target) _ λ id now db. refl)
          λ m. Triple-bind (unless-Reads _ _) λ u. Triple-bind (if-Reads _ _) λ u. in_tx-Atomic _

  pub self_or_admin-Reads :
      (self : Bool) (caller : Principal) (group_id : ℕ)
      → Triple P
          (if self then pure tt else require_group_role caller group_id group_admin)
          (λ u. P)
          P
  self_or_admin-Reads true caller group_id = Triple-pure tt (λ db p. p)
  self_or_admin-Reads false caller group_id = require_group_role-Reads caller group_id group_admin

  pub remove_member-Atomic :
      (subject group_id target : ℕ) → Triple P (remove_member subject group_id target) Anything P
  unfolding remove_member get_membership membership_has_expenses user_has_expense_shares
  remove_member-Atomic subject group_id target = Triple-bind (caller-Reads subject) λ caller.
      Triple-bind (self_or_admin-Reads (target == caller.user_id) caller group_id) λ u.
        Triple-bind (read (get_membership group_id target) _ λ id now db. refl) λ m.
          Triple-bind (if-Reads _ _) λ u.
            Triple-bind (read (membership_has_expenses group_id m.id) _ λ id now db. refl) λ b.
              Triple-bind (if-Reads _ _) λ u.
                Triple-bind (read (user_has_expense_shares group_id target) _ λ id now db. refl)
                  λ c. Triple-bind (if-Reads _ _) λ u. run-Atomic _ _

  pub ask_verification-Atomic :
      (p : Principal) (status : VerificationStatus)
      → Triple P (ask_verification p status) Anything P
  unfolding ask_verification
  ask_verification-Atomic p registered =
      Triple-bind (run-Atomic _ _) (λ u. Triple-pure _ (λ db q. q))
  ask_verification-Atomic p rejected = Triple-bind (run-Atomic _ _) (λ u. Triple-pure _ (λ db q. q))
  ask_verification-Atomic p pending_verification = Triple-pure p (λ db q. tt)
  ask_verification-Atomic p verified = record { holds = λ env w q. q }

  pub submit_verification-Atomic : (subject : ℕ) → Triple P (submit_verification subject) Anything P
  unfolding submit_verification
  submit_verification-Atomic subject =
      Triple-bind (principal_by_keycloak_id-Reads subject _)
        λ p. ask_verification-Atomic p p.verification_status

  pub set_verification-Atomic :
      (subject target : ℕ) (decision : VerificationStatus)
      → Triple P (set_verification subject target decision) Anything P
  unfolding set_verification
  set_verification-Atomic subject target decision = Triple-bind (unless-Reads _ _) λ u.
      Triple-bind (principal_by_keycloak_id-Reads subject _) λ admin.
        Triple-bind (lift-Reads _)
          λ u. Triple-bind (run-Atomic _ _) (λ u. Triple-pure _ (λ db q. q))
