-- ===== src/Store/Memberships.antt =====
-- database/repo/memberships.sql.go: the queries on the memberships, with the constraints of the
-- table.
use expense_splitter.Prelude.{
  ℕ, Bool, not, ◌&&◌, ◌||◌, Option, none, some, List, [], ◌∷◌, ◌++◌, ◌==◌, ltb, if◌then◌else◌,
}
use expense_splitter.Types.Membership.{
  MembershipStatus, group_admin, member, requested, approved, is_group_admin_role, is_approved,
  is_requested,
}
use Prim.Native.String.{String}
use expense_splitter.Store.{UserRow, GroupRow, MembershipRow}
use expense_splitter.Store.Action.{row, no_rows, failed, Query, select}
use expense_splitter.Store.Rows.{find, one, exists_row, where_rows, update_rows, order_by}

abbrev pub is_member : ℕ → ℕ → MembershipRow → Bool
is_member group_id user_id m = (m.group_id == group_id) && (m.user_id == user_id)

unfoldable pub get_membership : ℕ → ℕ → Query MembershipRow
get_membership group_id user_id =
    select λ db. one (find (is_member group_id user_id) db.memberships)

-- `ON CONFLICT (group_id, user_id) DO NOTHING`: no row comes back. The group and the user exist.
unfoldable pub create_join_request : ℕ → ℕ → Query MembershipRow
create_join_request group_id user_id uuid now db =
    let m : MembershipRow = record {
      id = uuid;
      group_id = group_id;
      user_id = user_id;
      role = member;
      status = requested;
      created_at = now;
    } in
    if exists_row (is_member group_id user_id) db.memberships
    then (no_rows, db)
    else if exists_row (λ n. n.id == uuid) db.memberships
        || not (exists_row (λ g. g.id == group_id) db.groups)
        || not (exists_row (λ u. u.id == user_id) db.users)
    then (failed, db)
    else (row m, record db { memberships = db.memberships ++ (m ∷ []) })

unfoldable pub decide_join_request : MembershipStatus → ℕ → ℕ → Query MembershipRow
decide_join_request status group_id user_id uuid now db =
    let test : MembershipRow → Bool = λ m. is_member group_id user_id m && is_requested m.status in
    let set : MembershipRow → MembershipRow = λ m. record m { status = status } in
    elim (find test db.memberships) [
      | none ↦ (no_rows, db)
      | some m ↦ (row (set m), record db { memberships = update_rows test set db.memberships })
    ]

abbrev pub is_admin_of : ℕ → MembershipRow → Bool
is_admin_of group_id m = (m.group_id == group_id) && is_group_admin_role m.role

-- The id of the admin whose role was taken away.
unfoldable pub demote_group_admin : ℕ → Query ℕ
demote_group_admin group_id uuid now db = elim (find (is_admin_of group_id) db.memberships) [
  | none ↦ (no_rows, db)
  | some m ↦ (
    row m.user_id,
    record db {
      memberships =
          update_rows (is_admin_of group_id) (λ n. record n { role = member }) db.memberships;
    },
  )
]

-- The index `one_group_admin_per_group` forbids a second admin.
unfoldable pub promote_to_group_admin : ℕ → ℕ → Query MembershipRow
promote_to_group_admin group_id user_id uuid now db =
    let test : MembershipRow → Bool = λ m. is_member group_id user_id m && is_approved m.status in
    let set : MembershipRow → MembershipRow = λ m. record m { role = group_admin } in
    elim (find test db.memberships) [
      | none ↦ (no_rows, db)
      | some m ↦
          if exists_row (λ n. is_admin_of group_id n && not (n.user_id == user_id)) db.memberships
          then (failed, db)
          else (row (set m), record db { memberships = update_rows test set db.memberships })
    ]

unfoldable pub membership_has_expenses : ℕ → ℕ → Query Bool
membership_has_expenses group_id paid_by =
    select
      λ db. row (exists_row (λ e. (e.group_id == group_id) && (e.paid_by == paid_by)) db.expenses)

-- Expenses and payments reference memberships.
unfoldable pub delete_membership : ℕ → Query (Unit {0})
delete_membership id uuid now db = elim (find (λ m. m.id == id) db.memberships) [
  | none ↦ (row tt, db)
  | some m ↦
      if exists_row (λ e. (e.group_id == m.group_id) && (e.paid_by == m.id)) db.expenses
        || exists_row
            (λ p.
              (p.group_id == m.group_id)
              && ((p.from_user_id == m.user_id) || (p.to_user_id == m.user_id)))
            db.payments
      then (failed, db)
      else (row tt, record db { memberships = where_rows (λ n. not (n.id == id)) db.memberships })
]

-- The first membership of a new group. The index allows one group admin.
unfoldable pub create_group_admin_membership : ℕ → ℕ → Query (Unit {0})
create_group_admin_membership group_id user_id uuid now db =
    let m : MembershipRow = record {
      id = uuid;
      group_id = group_id;
      user_id = user_id;
      role = group_admin;
      status = approved;
      created_at = now;
    } in
    if exists_row (λ n. (n.id == uuid) || is_member group_id user_id n || is_admin_of group_id n)
        db.memberships
      || not (exists_row (λ g. g.id == group_id) db.groups)
      || not (exists_row (λ u. u.id == user_id) db.users)
    then (failed, db)
    else (row tt, record db { memberships = db.memberships ++ (m ∷ []) })

-- Expenses and payments reference memberships.
unfoldable pub delete_group_memberships : ℕ → Query (Unit {0})
delete_group_memberships group_id uuid now db =
    if exists_row (λ e. e.group_id == group_id) db.expenses
      || exists_row (λ p. p.group_id == group_id) db.payments
    then (failed, db)
    else (
      row tt,
      record db { memberships = where_rows (λ m. not (m.group_id == group_id)) db.memberships },
    )

-- A membership with the email of its user, in front of the rest.
unfoldable pub with_email :
    Option UserRow → MembershipRow → List (MembershipRow × String) → List (MembershipRow × String)
with_email none m rest = rest
with_email (some u) m rest = (m, u.email) ∷ rest

-- The join of memberships with their users.
unfoldable pub join_emails : List UserRow → List MembershipRow → List (MembershipRow × String)
join_emails users [] = []
join_emails users (m ∷ ms) =
    with_email (find (λ u. u.id == m.user_id) users) m (join_emails users ms)

unfoldable pub list_join_requests : ℕ → Query (List (MembershipRow × String))
list_join_requests group_id = select λ db. row (
    join_emails db.users (
      order_by (λ m n. ltb m.created_at n.created_at)
        (where_rows (λ m. (m.group_id == group_id) && is_requested m.status) db.memberships)))

-- The order of `membership_role`, and the time among equals.
abbrev role_then_time : MembershipRow → MembershipRow → Bool
role_then_time m n =
    if is_group_admin_role m.role
    then not (is_group_admin_role n.role) || ltb m.created_at n.created_at
    else not (is_group_admin_role n.role) && ltb m.created_at n.created_at

unfoldable pub list_group_members : ℕ → Query (List (MembershipRow × String))
list_group_members group_id = select λ db. row (
    join_emails db.users
      (order_by role_then_time (where_rows (λ m. m.group_id == group_id) db.memberships)))

-- The join of memberships with the names of their groups.
unfoldable pub join_names : List GroupRow → List MembershipRow → List (MembershipRow × String)
join_names groups [] = []
join_names groups (m ∷ ms) = elim (find (λ g. g.id == m.group_id) groups) [
  | none ↦ join_names groups ms
  | some g ↦ (m, g.name) ∷ join_names groups ms
]

unfoldable pub list_user_memberships : ℕ → Query (List (MembershipRow × String))
list_user_memberships user_id = select λ db. row (
    join_names db.groups (
      order_by (λ m n. ltb m.created_at n.created_at)
        (where_rows (λ m. m.user_id == user_id) db.memberships)))

-- The approved members of a group, joined with their users.
unfoldable pub list_approved_members : ℕ → Query (List (MembershipRow × String))
list_approved_members group_id = select λ db. row (
    join_emails db.users (
      order_by (λ m n. ltb m.user_id n.user_id)
        (where_rows (λ m. (m.group_id == group_id) && is_approved m.status) db.memberships)))
