-- ===== src/Store/Users.antt =====
-- database/repo/users.sql.go: the queries on the users.
use Prim.Native.String.{String}
use expense_splitter.Prelude.{
  ℕ, Bool, true, false, not, ◌&&◌, ◌||◌, Option, none, some, List, [], ◌∷◌, ◌++◌, ◌==◌, ltb,
  if◌then◌else◌,
}
use expense_splitter.Prelude.Int.{ℤ}
use expense_splitter.Types.Principal.{
  VerificationStatus, registered, pending_verification, same_verification,
}
use expense_splitter.Store.{UserRow, Db}
use expense_splitter.Store.Action.{row, no_rows, failed, Query, select}
use expense_splitter.Store.Rows.{
  find, one, exists_row, where_rows, count_rows, update_rows, order_by, page_reply,
}

abbrev pub same_key : ℕ → Option ℕ → Bool
same_key k none = false
same_key k (some j) = j == k

unfoldable pub get_user_by_keycloak_id : ℕ → Query UserRow
get_user_by_keycloak_id subject =
    select λ db. one (find (λ u. same_key subject u.keycloak_id) db.users)

unfoldable pub get_user_by_id : ℕ → Query UserRow
get_user_by_id id = select λ db. one (find (λ u. u.id == id) db.users)

-- `UPDATE users ... WHERE id = $1 RETURNING ...`
unfoldable pub update_user : ℕ → (UserRow → UserRow) → Query UserRow
update_user id f uuid now db = elim (find (λ u. u.id == id) db.users) [
  | none ↦ (no_rows, db)
  | some u ↦ (row (f u), record db { users = update_rows (λ v. v.id == id) f db.users })
]

unfoldable pub set_user_verification_pending : ℕ → Query UserRow
set_user_verification_pending id =
    update_user id λ u. record u { verification_status = pending_verification }

-- `verified_by` references the users.
unfoldable pub set_user_verification : VerificationStatus → ℕ → ℕ → Query UserRow
set_user_verification status verified_by id uuid now db =
    if exists_row (λ u. u.id == verified_by) db.users
    then update_user id
        (λ u. record u { verification_status = status; verified_by = some verified_by }) uuid now db
    else (failed, db)

abbrev is_unlinked : Option ℕ → Bool
is_unlinked none = true
is_unlinked (some k) = false

-- `(keycloak_id IS NOT NULL)`
abbrev pub is_linked : UserRow → Bool
is_linked u = not (is_unlinked u.keycloak_id)

-- `keycloak_id` is unique. `same` compares two emails as `citext` does.
unfoldable pub link_user_keycloak_id : (String → String → Bool) → ℕ → String → Query UserRow
link_user_keycloak_id same subject email uuid now db =
    let test : UserRow → Bool = λ u. same u.email email && is_unlinked u.keycloak_id in
    let set : UserRow → UserRow = λ u. record u { keycloak_id = some subject } in
    elim (find test db.users) [
      | none ↦ (no_rows, db)
      | some u ↦
          if exists_row (λ v. same_key subject v.keycloak_id) db.users
          then (failed, db)
          else (row (set u), record db { users = update_rows test set db.users })
    ]

-- `ON CONFLICT (email) DO NOTHING`: no row comes back.
unfoldable pub create_user : (String → String → Bool) → ℕ → String → Query UserRow
create_user same subject email uuid now db =
    let u : UserRow = record {
      id = uuid;
      keycloak_id = some subject;
      email = email;
      is_global_admin = false;
      verification_status = registered;
      verified_by = none;
      created_at = now;
    } in
    if exists_row (λ v. same v.email email) db.users
    then (no_rows, db)
    else if exists_row (λ v. (v.id == uuid) || same_key subject v.keycloak_id) db.users
    then (failed, db)
    else (row u, record db { users = db.users ++ (u ∷ []) })

abbrev matches_filter : Option VerificationStatus → UserRow → Bool
matches_filter none u = true
matches_filter (some s) u = same_verification s u.verification_status

-- A page of the accounts, each with the number of all that match.
unfoldable pub list_users : Option VerificationStatus → ℤ → ℤ → Query (List (UserRow × ℕ))
list_users status limit offset = select λ db.
    page_reply limit offset (
      order_by (λ u v. ltb u.created_at v.created_at) (where_rows (matches_filter status) db.users))

unfoldable pub get_user_admin_view : ℕ → Query UserRow
get_user_admin_view id = select λ db. one (find (λ u. u.id == id) db.users)

unfoldable pub count_user_memberships : ℕ → Query ℕ
count_user_memberships user_id =
    select λ db. row (count_rows (λ m. m.user_id == user_id) db.memberships)

-- The foreign keys of the schema that reference a user.
unfoldable pub user_is_referenced : ℕ → Db → Bool
user_is_referenced id db =
    exists_row (λ u. same_key id u.verified_by && not (u.id == id)) db.users
    || exists_row (λ g. g.created_by == id) db.groups
    || exists_row (λ m. m.user_id == id) db.memberships
    || exists_row (λ s. s.user_id == id) db.expense_shares
    || exists_row (λ r. r.computed_by == id) db.settlement_runs
    || exists_row (λ n. n.recipient_user_id == id) db.notifications
    || exists_row (λ e. e.actor_user_id == id) db.audit_log

-- Whether the row was deleted, or refused for a foreign key (the code 23503).
unfoldable pub delete_user : ℕ → Query Bool
delete_user id uuid now db =
    if user_is_referenced id db
    then (row false, db)
    else (row true, record db { users = where_rows (λ u. not (u.id == id)) db.users })
