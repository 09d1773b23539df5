-- ===== src/Services/Memberships.antt =====
-- services/memberships.go: the requests that change the memberships of a group.
use Prim.Native.String.{String}
use expense_splitter.Prelude.{ℕ, List, ◌==◌, if◌then◌else◌}
use expense_splitter.Types.ApiError.{new_bad_request_error, new_not_found_error, new_conflict_error}
use expense_splitter.Types.Membership.{
  MembershipStatus, group_admin, requested, approved, rejected, is_approved, is_group_admin_role,
}
use expense_splitter.Types.Group.{is_open}
use expense_splitter.Store.{MembershipRow, membership_audit, group_admin_audit}
use expense_splitter.Store.Action.{
  Action, pure, lift, raise_if, raise_unless, run, exec, in_tx, ◌>>=◌, ◌>>◌,
}
use expense_splitter.Store.Groups.{get_group_by_invite_token}
use expense_splitter.Store.Memberships.{
  get_membership, create_join_request, decide_join_request, demote_group_admin,
  promote_to_group_admin, membership_has_expenses, delete_membership, list_join_requests,
}
use expense_splitter.Store.Expenses.{user_has_expense_shares}
use expense_splitter.Store.Audit.{write_audit}
use expense_splitter.Services.Authz.{registered_caller, require_verified, require_group_role}

unfoldable pub request_to_join : ℕ → ℕ → Action MembershipRow
request_to_join subject invite_token = do
  caller ← registered_caller subject
  lift (require_verified caller)
  g ← run (get_group_by_invite_token invite_token) (new_not_found_error "invalid invite token")
  raise_unless (is_open g.status) (new_conflict_error "group is not open")
  run (create_join_request g.id caller.user_id)
      (new_conflict_error "already a member or a join request is pending")

-- The strings `"membership." + string(decision)`.
abbrev decision_name : MembershipStatus → String
decision_name requested = "membership.requested"
decision_name approved = "membership.approved"
decision_name rejected = "membership.rejected"

unfoldable pub set_member_status : ℕ → ℕ → ℕ → MembershipStatus → Action MembershipRow
set_member_status subject group_id target decision = do
  caller ← registered_caller subject
  require_group_role caller group_id group_admin
  in_tx (do
    decided ←
        run (decide_join_request decision group_id target)
          (new_not_found_error "no pending join request for this user")
    write_audit group_id caller.user_id (decision_name decision) (membership_audit target requested)
        (membership_audit target decision)
    pure decided)

unfoldable pub approve_member : ℕ → ℕ → ℕ → Action MembershipRow
approve_member subject group_id target = set_member_status subject group_id target approved

unfoldable pub reject_member : ℕ → ℕ → ℕ → Action MembershipRow
reject_member subject group_id target = set_member_status subject group_id target rejected

-- Demote first: the index forbids two admins at a time.
unfoldable pub transfer_admin : ℕ → ℕ → ℕ → Action MembershipRow
transfer_admin subject group_id new_admin = do
  caller ← registered_caller subject
  require_group_role caller group_id group_admin
  target ←
      run (get_membership group_id new_admin)
        (new_not_found_error "user is not a member of this group")
  raise_unless (is_approved target.status)
      (new_bad_request_error "new admin must be an approved member")
  raise_if (is_group_admin_role target.role) (new_conflict_error "user is already the group admin")
  in_tx (do
    old_admin ← exec (demote_group_admin group_id)
    promoted ← exec (promote_to_group_admin group_id new_admin)
    write_audit group_id caller.user_id "group.admin_transferred" (group_admin_audit old_admin)
        (group_admin_audit new_admin)
    pure promoted)

unfoldable pub remove_member : ℕ → ℕ → ℕ → Action (Unit {0})
remove_member subject group_id target = do
  caller ← registered_caller subject
  if target == caller.user_id then pure tt else require_group_role caller group_id group_admin
  m ←
      run (get_membership group_id target)
        (new_not_found_error "user is not a member of this group")
  raise_if (is_group_admin_role m.role)
      (new_conflict_error "the group admin must transfer the role before being removed")
  has_expenses ← exec (membership_has_expenses group_id m.id)
  raise_if has_expenses (new_conflict_error "cannot remove a member who has recorded expenses")
  has_shares ← exec (user_has_expense_shares group_id target)
  raise_if has_shares
      (new_conflict_error "cannot remove a member who participates in expense splits")
  exec (delete_membership m.id)

-- `ListJoinRequests`
unfoldable pub list_requests : ℕ → ℕ → Action (List (MembershipRow × String))
list_requests subject group_id = do
  caller ← registered_caller subject
  require_group_role caller group_id group_admin
  exec (list_join_requests group_id)
