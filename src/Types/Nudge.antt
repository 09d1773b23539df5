-- ===== src/Types/Nudge.antt =====
-- types/nudge.go: reminders.
use expense_splitter.Prelude.{ℕ, List}
use expense_splitter.Prelude.Int.{ℤ}

pub data NudgeType : Type 0 where
  nudge_debtor nudge_creditor : NudgeType

pub record Nudge : Type 0 where
  pub payment_id : ℕ
  pub recipient_user_id : ℕ
  pub nudge_type : NudgeType
  pub amount_baisa : ℤ

pub record NudgeRunResult : Type 0 where
  pub group_id : ℕ
  pub threshold_hours : ℕ
  pub sent : List Nudge
  pub skipped : ℕ
