-- ===== src/Services/Admin.antt =====
-- services/admin.go: what the global admin lists and deletes.
use Prim.Native.String.{String}
use expense_splitter.Prelude.{
  ℕ, Bool, if◌then◌else◌, Option, none, some, List, [], ◌∷◌, map, ◌==◌, ltb,
}
use expense_splitter.Prelude.Int.{ℤ}
use expense_splitter.Prelude.Int32.{int32}
use expense_splitter.Prelude.Text.{same_text}
use expense_splitter.Types.ApiError.{
  Result, ok, err, new_bad_request_error, new_not_found_error, new_conflict_error,
}
use expense_splitter.Types.Principal.{
  Principal, VerificationStatus, registered, pending_verification, verified, rejected,
}
use expense_splitter.Store.{
  UserRow, GroupRow, MembershipRow, deleted_user_audit, deleted_group_audit,
}
use expense_splitter.Store.Action.{
  Action, pure, lift, raise_unless, raise_if, run, exec, in_tx, ◌>>=◌, ◌>>◌,
}
use expense_splitter.Store.Users.{
  is_linked, list_users, get_user_admin_view, count_user_memberships, delete_user,
}
use expense_splitter.Store.Groups.{
  GroupFigures, get_group_by_id, group_has_history, delete_group, list_all_groups,
}
use expense_splitter.Store.Memberships.{delete_group_memberships, list_user_memberships}
use expense_splitter.Store.Audit.{write_system_audit}
use expense_splitter.Services.Authz.{registered_caller, require_global_admin}

-- `requireGlobalAdmin`
unfoldable pub global_admin_caller : ℕ → Action Principal
global_admin_caller subject = do
  caller ← registered_caller subject
  lift (require_global_admin caller)
  pure caller

pub record Page {ℓ} (A : Type ℓ) : Type ℓ where
  pub total : ℕ
  pub limit : ℤ
  pub offset : ℤ
  pub items : List A

-- `page.Total = r.FullCount` in the loop over the rows.
unfoldable pub last_count {ℓ} : {A : Type ℓ} → ℕ → List (A × ℕ) → ℕ
last_count total [] = total
last_count total ((x, n) ∷ rows) = last_count n rows

abbrev pub page_of {ℓ} : {A : Type ℓ} → ℤ → ℤ → List (A × ℕ) → Page A
page_of limit offset rows = record {
  total = last_count 0 rows;
  limit = limit;
  offset = offset;
  items = map (λ r. r.0) rows;
}

-- The filter of a query, by its text.
unfoldable pub status_filter : String → Result (Option VerificationStatus)
status_filter status =
    if same_text status ""
    then ok none
    else if same_text status "registered"
    then ok (some registered)
    else if same_text status "pending_verification"
    then ok (some pending_verification)
    else if same_text status "verified"
    then ok (some verified)
    else if same_text status "rejected"
    then ok (some rejected)
    else err (
        new_bad_request_error
          "status must be one of: registered, pending_verification, verified, rejected")

unfoldable pub admin_list_users : ℕ → String → ℤ → ℤ → Action (Page UserRow)
admin_list_users subject status limit offset = do
  global_admin_caller subject
  filter ← lift (status_filter status)
  rows ← exec (list_users filter (int32 limit) (int32 offset))
  pure (page_of limit offset rows)

pub record AdminUserDetail : Type 0 where
  pub user : UserRow
  pub linked : Bool
  pub memberships : List (MembershipRow × String)

unfoldable pub admin_get_user : ℕ → ℕ → Action AdminUserDetail
admin_get_user subject user_id = do
  global_admin_caller subject
  u ← run (get_user_admin_view user_id) (new_not_found_error "user not found")
  memberships ← exec (list_user_memberships user_id)
  pure (record { user = u; linked = is_linked u; memberships = memberships })

unfoldable pub admin_delete_user : ℕ → ℕ → Action (Unit {0})
admin_delete_user subject user_id = do
  caller ← global_admin_caller subject
  raise_if (caller.user_id == user_id)
      (new_conflict_error "the global admin cannot delete their own account")
  target ← run (get_user_admin_view user_id) (new_not_found_error "user not found")
  raise_if target.is_global_admin (new_conflict_error "the global admin account cannot be deleted")
  memberships ← exec (count_user_memberships user_id)
  raise_if (ltb 0 memberships) (
      new_conflict_error
        "cannot delete a user who belongs to groups — remove their memberships first")
  in_tx (do
    deleted ← exec (delete_user user_id)
    raise_unless deleted
        (new_conflict_error "user is referenced by financial history and cannot be deleted")
    write_system_audit caller.user_id "user.deleted" (deleted_user_audit user_id target.email))

unfoldable pub admin_list_groups : ℕ → ℤ → ℤ → Action (Page (GroupRow × GroupFigures))
admin_list_groups subject limit offset = do
  global_admin_caller subject
  rows ← exec (list_all_groups (int32 limit) (int32 offset))
  pure (page_of limit offset rows)

unfoldable pub admin_delete_group : ℕ → ℕ → Action (Unit {0})
admin_delete_group subject group_id = do
  caller ← global_admin_caller subject
  g ← run (get_group_by_id group_id) (new_not_found_error "group not found")
  has_history ← exec (group_has_history group_id)
  raise_if has_history
      (new_conflict_error "cannot delete a group with expenses, payments or audit history")
  in_tx (do
    exec (delete_group_memberships group_id)
    deleted ← exec (delete_group group_id)
    raise_unless deleted (new_conflict_error "group is referenced by history and cannot be deleted")
    write_system_audit caller.user_id "group.deleted" (deleted_group_audit group_id g.name))
