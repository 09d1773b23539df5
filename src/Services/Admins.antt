-- ===== src/Services/Admins.antt =====
-- The group admins: what holds of the memberships between requests.
pub mod Rows
pub mod Money
pub mod Tidy
pub mod Members
pub mod Leaving
pub mod Groups
pub mod Kept
use expense_splitter.Prelude.{ℕ, ◌≡◌, ◌≤◌, true, not, ◌&&◌, List, ◌==◌, if◌then◌else◌}
use expense_splitter.Types.Membership.{is_approved}
use expense_splitter.Store.{GroupRow, MembershipRow, Db}
use expense_splitter.Store.Rows.{exists_row, count_rows}
use expense_splitter.Store.Memberships.{is_member, is_admin_of}

abbrev pub admins : ℕ → List MembershipRow → ℕ
admins g ms = count_rows (is_admin_of g) ms

-- The admins that are not approved.
abbrev pub loose_admins : ℕ → List MembershipRow → ℕ
loose_admins g ms = count_rows (λ m. is_admin_of g m && not (is_approved m.status)) ms

-- The rules of the table: no admin without approval, one membership for a user in a group, and
-- distinct ids.
abbrev pub IsTidy : List MembershipRow → Type 0
IsTidy ms =
    ((g : ℕ) → loose_admins g ms ≡ 0)
    × ((g u : ℕ) → count_rows (is_member g u) ms ≤ 1)
    × ((id : ℕ) → count_rows (λ m. m.id == id) ms ≤ 1)

abbrev pub OneAdmin : List GroupRow → List MembershipRow → Type 0
OneAdmin groups ms =
    ((g : ℕ) → admins g ms ≡ (if exists_row (λ x. x.id == g) groups then 1 else 0)) × IsTidy ms

-- Every group has exactly one group admin, who is approved, and no other group has any.
abbrev pub HasOneAdmin : Db → Type 0
HasOneAdmin db = OneAdmin db.groups db.memberships

-- A group without an admin, while every other group has its own.
abbrev pub Lacks : ℕ → List GroupRow → List MembershipRow → Type 0
Lacks id groups ms =
    ((g : ℕ)
      → admins g ms ≡ (if g == id then 0 else if exists_row (λ x. x.id == g) groups then 1 else 0))
    × IsTidy ms

-- The same for a group that exists.
abbrev pub Vacant : ℕ → List GroupRow → List MembershipRow → Type 0
Vacant id groups ms = Lacks id groups ms × (exists_row (λ x. x.id == id) groups ≡ true)
