-- ===== src/Services/Groups.antt =====
-- services/groups.go, and the requests of types/group.go.
use Prim.Native.String.{String}
use expense_splitter.Prelude.{ℕ, Bool, true, false, Option, none, some, List, ◌==◌}
use expense_splitter.Types.ApiError.{
  new_bad_request_error, new_forbidden_error, new_not_found_error, new_conflict_error,
}
use expense_splitter.Types.Principal.{Principal, is_verified}
use expense_splitter.Types.Membership.{group_admin, member}
use expense_splitter.Types.Group.{is_open}
use expense_splitter.Store.{GroupRow, MembershipRow}
use expense_splitter.Store.Action.{
  Action, asks, pure, lift, raise, raise_unless, raise_if, run, exec, in_tx, ◌>>=◌, ◌>>◌,
}
use expense_splitter.Store.Groups.{
  GroupFields, create_group_row, get_group_status, get_group_by_id, update_open_group,
  list_groups_for_user,
}
use expense_splitter.Store.Memberships.{create_group_admin_membership, list_group_members}
use expense_splitter.Services.Authz.{
  principal_by_user_id, registered_caller, require_verified, require_group_role,
}

-- `CreateGroupRequest`; `UpdateGroupRequest` is the part `fields`.
pub record CreateGroupRequest : Type 0 where
  pub fields : GroupFields
  pub admin_user_id : Option ℕ

-- The body of `resolveGroupAdmin`, by whether the caller is the global admin.
unfoldable pub resolve_admin : Bool → Principal → Option ℕ → Action ℕ
resolve_admin true caller none =
    raise (new_bad_request_error "global admin must assign a group admin via admin_user_id")
resolve_admin true caller (some id) = do
  raise_if (id == caller.user_id)
      (new_bad_request_error "global admin cannot assign themselves as group admin")
  target ← principal_by_user_id id (new_not_found_error "assigned user not found")
  raise_unless (is_verified target)
      (new_bad_request_error "assigned group admin must be a verified user")
  pure target.user_id
resolve_admin false caller (some id) =
    raise (new_forbidden_error "only the global admin may assign a group admin to another member")
resolve_admin false caller none = do lift (require_verified caller); pure caller.user_id

abbrev pub resolve_group_admin : Principal → Option ℕ → Action ℕ
resolve_group_admin caller assigned = resolve_admin caller.is_global_admin caller assigned

unfoldable pub create_group : ℕ → CreateGroupRequest → Action GroupRow
create_group subject req = asks λ env. do
  caller ← registered_caller subject
  admin ← resolve_group_admin caller req.admin_user_id
  in_tx (do
    g ← exec (create_group_row env.invite_token env.status_token req.fields caller.user_id)
    exec (create_group_admin_membership g.id admin)
    pure g)

unfoldable pub update_group : ℕ → ℕ → GroupFields → Action GroupRow
update_group subject group_id req = do
  caller ← registered_caller subject
  require_group_role caller group_id group_admin
  status ← run (get_group_status group_id) (new_not_found_error "group not found")
  raise_unless (is_open status) (new_conflict_error "group is not open")
  run (update_open_group req group_id) (new_conflict_error "group is not open")

unfoldable pub list_my_groups : ℕ → Action (List (GroupRow × MembershipRow))
list_my_groups subject = do
  caller ← registered_caller subject
  exec (list_groups_for_user caller.user_id)

pub record GroupDetail : Type 0 where
  pub group : GroupRow
  pub members : List (MembershipRow × String)

unfoldable pub get_group : ℕ → ℕ → Action GroupDetail
get_group subject group_id = do
  caller ← registered_caller subject
  require_group_role caller group_id member
  g ← run (get_group_by_id group_id) (new_not_found_error "group not found")
  members ← exec (list_group_members group_id)
  pure (record { group = g; members = members })
