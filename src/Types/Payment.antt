-- ===== src/Types/Payment.antt =====
-- types/payment.go: the states of a payment.
use expense_splitter.Prelude.{Bool, true, false}

pub data PaymentStatus : Type 0 where
  pending proof_submitted creditor_confirmed disputed settled : PaymentStatus

abbrev pub is_pending : PaymentStatus → Bool
is_pending pending = true
is_pending _ = false

abbrev pub is_proof_submitted : PaymentStatus → Bool
is_proof_submitted proof_submitted = true
is_proof_submitted _ = false

abbrev pub is_creditor_confirmed : PaymentStatus → Bool
is_creditor_confirmed creditor_confirmed = true
is_creditor_confirmed _ = false

abbrev pub is_disputed : PaymentStatus → Bool
is_disputed disputed = true
is_disputed _ = false

abbrev pub is_settled : PaymentStatus → Bool
is_settled settled = true
is_settled _ = false
