-- ===== src/Store.antt =====
-- database/migration/schema and database/repo: the tables, and what a query answers. An id is a
-- natural number, since the code only compares uuids. A column that no query reads is left out.
pub mod Action
pub mod Rows
pub mod Users
pub mod Groups
pub mod Memberships
pub mod Expenses
pub mod Settlement
pub mod Audit
pub mod Nudges
pub mod Hoare
use Prim.Native.String.{String}
use expense_splitter.Prelude.{
  ℕ, zero, suc, ◌+◌, Bool, true, false, Option, none, some, List, [], ◌∷◌, ◌==◌, ◌||◌,
  if◌then◌else◌,
}
use expense_splitter.Prelude.Int.{ℤ}
use expense_splitter.Types.Principal.{VerificationStatus}
use expense_splitter.Types.Membership.{MembershipRole, MembershipStatus}
use expense_splitter.Types.Group.{GroupStatus}
use expense_splitter.Types.Expense.{ExpenseCategory, SplitType}
use expense_splitter.Types.Payment.{PaymentStatus}
use expense_splitter.Types.Proof.{ProofType, StorageKey}
use expense_splitter.Types.Nudge.{NudgeType}
use expense_splitter.Settlement.Plan.{MemberBalance}

pub record UserRow : Type 0 where
  pub id : ℕ
  pub keycloak_id : Option ℕ
  pub email : String
  pub is_global_admin : Bool
  pub verification_status : VerificationStatus
  pub verified_by : Option ℕ
  pub created_at : ℕ

-- A time is a number of seconds, from the zero time of Go on.
pub record GroupRow : Type 0 where
  pub id : ℕ
  pub name : String
  pub start_date : ℕ
  pub end_date : ℕ
  pub status : GroupStatus
  pub invite_token : ℕ
  pub status_token : ℕ
  pub expected_member_count : Option ℤ
  pub created_by : ℕ
  pub created_at : ℕ

pub record MembershipRow : Type 0 where
  pub id : ℕ
  pub group_id : ℕ
  pub user_id : ℕ
  pub role : MembershipRole
  pub status : MembershipStatus
  pub created_at : ℕ

pub record ExpenseRow : Type 0 where
  pub id : ℕ
  pub group_id : ℕ
  pub paid_by : ℕ
  pub amount_baisa : ℤ
  pub category : ExpenseCategory
  pub description : String
  pub occurred_on : ℕ
  pub split_type : SplitType
  pub deleted : Bool
  pub created_at : ℕ

pub record ExpenseShareRow : Type 0 where
  pub expense_id : ℕ
  pub user_id : ℕ
  pub weight : ℤ

-- `types.SettlementSnapshot`, which the table keeps as JSON.
pub record SettlementSnapshot : Type 0 where
  pub total_spent : ℤ
  pub member_count : ℕ
  pub spend_per_category : List (ExpenseCategory × ℤ)
  pub members : List MemberBalance

pub record SettlementRunRow : Type 0 where
  pub id : ℕ
  pub group_id : ℕ
  pub computed_by : ℕ
  pub snapshot : SettlementSnapshot

pub record PaymentRow : Type 0 where
  pub id : ℕ
  pub settlement_run_id : ℕ
  pub group_id : ℕ
  pub from_user_id : ℕ
  pub to_user_id : ℕ
  pub amount_baisa : ℤ
  pub status : PaymentStatus
  pub version : ℕ
  pub created_at : ℕ
  pub updated_at : ℕ

pub record ProofRow : Type 0 where
  pub id : ℕ
  pub payment_id : ℕ
  pub proof_type : ProofType
  pub sha256 : Option ℕ
  pub byte_size : Option ℕ
  pub note : Option String
  pub storage_key : Option StorageKey
  pub is_current : Bool
  pub created_at : ℕ

pub record NotificationRow : Type 0 where
  pub payment_id : ℕ
  pub recipient_user_id : ℕ
  pub nudge_type : NudgeType
  pub last_sent_at : ℕ

-- The JSON values of `before` and `after`.
pub data AuditValue : Type 0 where
  absent : AuditValue
  payment_status_audit : ℕ → PaymentStatus → AuditValue
  group_status_audit : GroupStatus → AuditValue
  group_closed_audit : GroupStatus → ℤ → ℕ → AuditValue
  expense_audit : ℕ → ℤ → Option ExpenseCategory → Option ℕ → AuditValue
  expense_amount_audit : ℤ → AuditValue
  membership_audit : ℕ → MembershipStatus → AuditValue
  group_admin_audit : ℕ → AuditValue
  deleted_user_audit : ℕ → String → AuditValue
  deleted_group_audit : ℕ → String → AuditValue

pub record AuditRow : Type 0 where
  pub group_id : Option ℕ
  pub actor_user_id : ℕ
  pub action : String
  pub before : AuditValue
  pub after : AuditValue

pub record Db : Type 0 where
  pub users : List UserRow
  pub groups : List GroupRow
  pub memberships : List MembershipRow
  pub expenses : List ExpenseRow
  pub expense_shares : List ExpenseShareRow
  pub settlement_runs : List SettlementRunRow
  pub payments : List PaymentRow
  pub proofs : List ProofRow
  pub notifications : List NotificationRow
  pub audit_log : List AuditRow
