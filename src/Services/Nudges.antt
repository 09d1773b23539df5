-- ===== src/Services/Nudges.antt =====
-- services/nudges.go: `RunNudges`. It works outside a transaction, one statement after another.
use expense_splitter.Prelude.{ℕ, suc, Option, none, some, List, [], ◌∷◌, ◌++◌}
use expense_splitter.Types.Membership.{group_admin}
use expense_splitter.Types.Payment.{PaymentStatus, pending, proof_submitted}
use expense_splitter.Types.Nudge.{Nudge, NudgeRunResult, nudge_debtor, nudge_creditor}
use expense_splitter.Store.{PaymentRow}
use expense_splitter.Store.Action.{Action, pure, try_run, exec, ◌>>=◌, ◌>>◌}
use expense_splitter.Store.Nudges.{list_stale_payments, upsert_nudge}
use expense_splitter.Services.Authz.{registered_caller, require_group_role}

-- The `switch p.Status`: the debtor of a new payment and the creditor of a proof are reminded.
abbrev pub nudge_for : PaymentRow → PaymentStatus → Option Nudge
nudge_for p pending = some (record {
  payment_id = p.id;
  recipient_user_id = p.from_user_id;
  nudge_type = nudge_debtor;
  amount_baisa = p.amount_baisa;
})
nudge_for p proof_submitted = some (record {
  payment_id = p.id;
  recipient_user_id = p.to_user_id;
  nudge_type = nudge_creditor;
  amount_baisa = p.amount_baisa;
})
nudge_for p _ = none

-- `none` is the conflict without an update.
abbrev pub count_nudge : Nudge → Option (Unit {0}) → NudgeRunResult → NudgeRunResult
count_nudge nudge none result = record result { skipped = suc result.skipped }
count_nudge nudge (some u) result = record result { sent = result.sent ++ (nudge ∷ []) }

-- The body of the loop for a payment with a recipient.
unfoldable pub send_nudge : ℕ → Nudge → NudgeRunResult → Action NudgeRunResult
send_nudge hours nudge result = do
  sent ← try_run (upsert_nudge nudge.payment_id nudge.recipient_user_id nudge.nudge_type hours)
  pure (count_nudge nudge sent result)

unfoldable pub nudge_payment : ℕ → Option Nudge → NudgeRunResult → Action NudgeRunResult
nudge_payment hours none result = pure result
nudge_payment hours (some nudge) result = send_nudge hours nudge result

unfoldable pub nudge_all : ℕ → List PaymentRow → NudgeRunResult → Action NudgeRunResult
nudge_all hours [] result = pure result
nudge_all hours (p ∷ stale) result = do
  next ← nudge_payment hours (nudge_for p p.status) result
  nudge_all hours stale next

-- The handler passes 0 to 720 hours, on which `int32(hours)` is the identity.
unfoldable pub run_nudges : ℕ → ℕ → ℕ → Action NudgeRunResult
run_nudges subject group_id hours = do
  caller ← registered_caller subject
  require_group_role caller group_id group_admin
  stale ← exec (list_stale_payments group_id hours)
  nudge_all hours stale
      (record { group_id = group_id; threshold_hours = hours; sent = []; skipped = 0 })
