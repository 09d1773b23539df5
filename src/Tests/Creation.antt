-- ===== src/Tests/Creation.antt =====
-- A new group on a small database.
use expense_splitter.Prelude.{refl, none}
use expense_splitter.Types.Group.{group_open}
use expense_splitter.Store.{GroupRow}
use expense_splitter.Store.Action.{try_run, in_tx, ◌>>=◌}
use expense_splitter.Store.Rows.{find, exists_row}
use expense_splitter.Store.Users.{get_user_by_keycloak_id}
use expense_splitter.Store.Groups.{create_group_row}
use expense_splitter.Store.Memberships.{create_group_admin_membership}
use expense_splitter.Services.Authz.{principal_by_keycloak_id, require_verified}
use expense_splitter.Services.Groups.{CreateGroupRequest, resolve_admin, create_group}
use expense_splitter.Services.Creation.{IsCreated, create_group-Creates}
use expense_splitter.Tests.Data.{start, world, calm}

abbrev request : CreateGroupRequest
request = record {
  fields = record { name = "camp"; start_date = 5; end_date = 9; expected_member_count = none };
  admin_user_id = none;
}

abbrev camp : GroupRow
camp = record {
  id = 102;
  name = "camp";
  start_date = 5;
  end_date = 9;
  status = group_open;
  invite_token = 7;
  status_token = 8;
  expected_member_count = none;
  created_by = 2;
  created_at = 50;
}

-- The second user makes a group of his own.
create_group-Creates_example :
    IsCreated start 12 request camp (create_group 12 request calm world).1.db
unfolding create_group principal_by_keycloak_id get_user_by_keycloak_id require_verified
    resolve_admin create_group_row create_group_admin_membership try_run in_tx ◌>>=◌ find exists_row
create_group-Creates_example = create_group-Creates 12 request calm world camp refl
