-- ===== src/Store/Groups.antt =====
-- database/repo/groups.sql.go: the queries on the groups.
use expense_splitter.Prelude.{
  ℕ, ◌/◌, Bool, true, false, not, ◌||◌, Option, none, some, List, map, [], ◌∷◌, ◌++◌, ltb,
  if◌then◌else◌, ◌&&◌, ◌==◌, leb,
}
use expense_splitter.Types.Group.{
  GroupStatus, group_open, group_closed, group_settled, is_open, is_closed,
}
use expense_splitter.Prelude.Int.{ℤ, pos, ltb_ℤ, ◌+ℤ◌}
use expense_splitter.Prelude.Int32.{is_int4}
use expense_splitter.Prelude.Int64.{two_63}
use Prim.Native.String.{String}
use expense_splitter.Types.Membership.{is_approved}
use expense_splitter.Store.{GroupRow, MembershipRow, ExpenseRow, Db}
use expense_splitter.Store.Expenses.{is_live}
use expense_splitter.Store.Action.{row, no_rows, failed, Query, select}
use expense_splitter.Store.Rows.{
  find, one, exists_row, where_rows, count_rows, update_rows, order_by, page_reply, map_reply,
}

unfoldable pub get_group_status : ℕ → Query GroupStatus
get_group_status id =
    select λ db. map_reply (λ g. g.status) (one (find (λ g. g.id == id) db.groups))

-- `LockGroup` and `LockGroupStatus` read the status under a lock, which a single request does not
-- see.
unfoldable pub lock_group : ℕ → Query GroupStatus
lock_group id = select λ db. map_reply (λ g. g.status) (one (find (λ g. g.id == id) db.groups))

unfoldable pub lock_group_status : ℕ → Query GroupStatus
lock_group_status id =
    select λ db. map_reply (λ g. g.status) (one (find (λ g. g.id == id) db.groups))

-- `::date` in a session in UTC.
abbrev pub date_of : ℕ → ℕ
date_of t = t / 86400

pub record LockGroupForExpenseRow : Type 0 where
  pub status : GroupStatus
  pub in_range : Bool

unfoldable pub lock_group_for_expense : ℕ → ℕ → Query LockGroupForExpenseRow
lock_group_for_expense occurred_on id = select λ db.
    map_reply
      (λ g. record {
        status = g.status;
        in_range = leb (date_of g.start_date) occurred_on && leb occurred_on (date_of g.end_date);
      })
      (one (find (λ g. g.id == id) db.groups))

unfoldable pub get_group_by_invite_token : ℕ → Query GroupRow
get_group_by_invite_token token = select λ db. one (find (λ g. g.invite_token == token) db.groups)

unfoldable pub mark_group_closed : ℕ → Query (Unit {0})
mark_group_closed id uuid now db = (
  row tt,
  record db {
    groups = update_rows (λ g. g.id == id) (λ g. record g { status = group_closed }) db.groups;
  },
)

unfoldable pub mark_group_settled : ℕ → Query (Unit {0})
mark_group_settled id uuid now db = (
  row tt,
  record db {
    groups =
        update_rows (λ g. (g.id == id) && is_closed g.status)
          (λ g. record g { status = group_settled }) db.groups;
  },
)

-- What the columns of a group hold: the count is an `int`, and the table checks the dates.
pub record GroupFields : Type 0 where
  pub name : String
  pub start_date : ℕ
  pub end_date : ℕ
  pub expected_member_count : Option ℤ

abbrev is_null_or_int4 : Option ℤ → Bool
is_null_or_int4 none = true
is_null_or_int4 (some n) = is_int4 n

abbrev pub fits_group : GroupFields → Bool
fits_group f = leb f.start_date f.end_date && is_null_or_int4 f.expected_member_count

-- The two tokens are generated with the id.
unfoldable pub create_group_row : ℕ → ℕ → GroupFields → ℕ → Query GroupRow
create_group_row invite_token status_token f created_by uuid now db =
    let g : GroupRow = record {
      id = uuid;
      name = f.name;
      start_date = f.start_date;
      end_date = f.end_date;
      status = group_open;
      invite_token = invite_token;
      status_token = status_token;
      expected_member_count = f.expected_member_count;
      created_by = created_by;
      created_at = now;
    } in
    if fits_group f
      && exists_row (λ u. u.id == created_by) db.users
      && not (exists_row (λ x. x.id == uuid) db.groups)
      && not (exists_row (λ x. x.invite_token == invite_token) db.groups)
      && not (exists_row (λ x. x.status_token == status_token) db.groups)
    then (row g, record db { groups = db.groups ++ (g ∷ []) })
    else (failed, db)

unfoldable pub get_group_by_id : ℕ → Query GroupRow
get_group_by_id id = select λ db. one (find (λ g. g.id == id) db.groups)

abbrev pub rewrite_group : GroupFields → GroupRow → GroupRow
rewrite_group f g = record g {
  name = f.name;
  start_date = f.start_date;
  end_date = f.end_date;
  expected_member_count = f.expected_member_count;
}

unfoldable pub update_open_group : GroupFields → ℕ → Query GroupRow
update_open_group f id uuid now db = elim (find (λ g. (g.id == id) && is_open g.status) db.groups) [
  | none ↦ (no_rows, db)
  | some g ↦
      if fits_group f
      then (
        row (rewrite_group f g),
        record db {
          groups = update_rows (λ x. (x.id == id) && is_open x.status) (rewrite_group f) db.groups;
        },
      )
      else (failed, db)
]

-- The rows of the join of a group with the approved memberships of a user.
abbrev join_memberships : List MembershipRow → GroupRow → List (GroupRow × MembershipRow)
join_memberships [] g = []
join_memberships (m ∷ ms) g =
    let rest = join_memberships ms g in if m.group_id == g.id then (g, m) ∷ rest else rest

unfoldable pub join_groups : List MembershipRow → List GroupRow → List (GroupRow × MembershipRow)
join_groups ms [] = []
join_groups ms (g ∷ groups) = join_memberships ms g ++ join_groups ms groups

unfoldable pub list_groups_for_user : ℕ → Query (List (GroupRow × MembershipRow))
list_groups_for_user user_id = select λ db. row (
    order_by (λ x y. ltb y.0.created_at x.0.created_at)
      (join_groups (where_rows (λ m. (m.user_id == user_id) && is_approved m.status) db.memberships)
        db.groups))

abbrev pub count_approved : ℕ → Db → ℕ
count_approved group_id db =
    count_rows (λ m. (m.group_id == group_id) && is_approved m.status) db.memberships

unfoldable pub sum_live : ℕ → List ExpenseRow → ℤ
sum_live group_id [] = pos 0
sum_live group_id (e ∷ expenses) =
    if is_live group_id e
    then e.amount_baisa +ℤ sum_live group_id expenses
    else sum_live group_id expenses

pub record GroupFigures : Type 0 where
  pub total_spent : ℤ
  pub member_count : ℕ

abbrev figures_of : Db → GroupRow → GroupRow × GroupFigures
figures_of db g =
    (g, record { total_spent = sum_live g.id db.expenses; member_count = count_approved g.id db })

abbrev all_bigints : List (GroupRow × GroupFigures) → Bool
all_bigints [] = true
all_bigints ((g, f) ∷ rows) = ltb_ℤ f.total_spent (pos two_63) && all_bigints rows

unfoldable pub list_all_groups : ℤ → ℤ → Query (List ((GroupRow × GroupFigures) × ℕ))
list_all_groups limit offset = select λ db.
    let rows = map (figures_of db) (order_by (λ g h. ltb h.created_at g.created_at) db.groups) in
    if all_bigints rows then page_reply limit offset rows else failed

abbrev pub is_of_group : ℕ → Option ℕ → Bool
is_of_group id none = false
is_of_group id (some g) = g == id

unfoldable pub group_has_history : ℕ → Query Bool
group_has_history id = select λ db. row (
    exists_row (λ e. e.group_id == id) db.expenses
    || exists_row (λ p. p.group_id == id) db.payments
    || exists_row (λ r. r.group_id == id) db.settlement_runs
    || exists_row (λ e. is_of_group id e.group_id) db.audit_log)

-- Whether the row was deleted, or refused for a foreign key (the code 23503).
unfoldable pub delete_group : ℕ → Query Bool
delete_group id uuid now db =
    if exists_row (λ m. m.group_id == id) db.memberships
      || exists_row (λ e. e.group_id == id) db.expenses
      || exists_row (λ p. p.group_id == id) db.payments
      || exists_row (λ r. r.group_id == id) db.settlement_runs
      || exists_row (λ e. is_of_group id e.group_id) db.audit_log
    then (row false, db)
    else (row true, record db { groups = where_rows (λ g. not (g.id == id)) db.groups })

unfoldable pub get_group_public_status : ℕ → Query (GroupRow × GroupFigures)
get_group_public_status status_token = select λ db.
    elim (find (λ g. g.status_token == status_token) db.groups) [
      | none ↦ no_rows
      | some g ↦
          if ltb_ℤ (sum_live g.id db.expenses) (pos two_63) then row (figures_of db g) else failed
    ]
