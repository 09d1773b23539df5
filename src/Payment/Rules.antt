-- ===== src/Payment/Rules.antt =====
-- The state machine against an independent list of its rules.
use expense_splitter.Prelude.{◌≡◌, ◌≢◌, ◌⊎◌, ◌↔◌, refl, Bool, true, false, arith}
use expense_splitter.Types.ApiError.{Result, ok, err, new_conflict_error}
use expense_splitter.Types.Payment.{
  PaymentStatus, pending, proof_submitted, creditor_confirmed, disputed, settled,
}
use expense_splitter.Payment.{
  PaymentAction, PaymentActor, submit_proof, confirm, dispute, finalize, reject, other,
  validate_payment_transition, PaymentEvent, payment_settled_override, payment_rejected_override,
  audit_action_for,
}

-- Who may take a payment from which status to which, by which action.
pub data Rule (a : PaymentActor) : PaymentAction → PaymentStatus → PaymentStatus → Type 0 where
  first_proof : a.is_debtor ≡ true → Rule a submit_proof pending proof_submitted
  new_proof : a.is_debtor ≡ true → Rule a submit_proof disputed proof_submitted
  receipt : a.is_creditor ≡ true → Rule a confirm proof_submitted creditor_confirmed
  denial : a.is_creditor ≡ true → Rule a dispute proof_submitted disputed
  second_key :
      a.is_debtor ≡ false → a.is_group_admin ≡ true → Rule a finalize creditor_confirmed settled
  override_settle :
      {s : PaymentStatus}
      → a.is_debtor ≡ false
      → a.is_global_admin ≡ true
      → s ≢ settled
      → Rule a finalize s settled
  reject_proof : a.is_group_admin ≡ true → Rule a reject proof_submitted disputed
  reject_receipt : a.is_group_admin ≡ true → Rule a reject creditor_confirmed disputed
  override_reject :
      {s : PaymentStatus} → a.is_global_admin ≡ true → s ≢ settled → Rule a reject s disputed

ruleset rules = (
  first_proof, new_proof, receipt, denial, second_key, override_settle, reject_proof,
  reject_receipt, override_reject,
)

Rule-complete :
    {act : PaymentAction} {a : PaymentActor} {s t : PaymentStatus}
    → Rule a act s t
    → validate_payment_transition act a s ≡ ok t
unfolding validate_payment_transition
Rule-complete (first_proof h) = ground arith
Rule-complete (new_proof h) = ground arith
Rule-complete (receipt h) = ground arith
Rule-complete (denial h) = ground arith
Rule-complete (second_key h k) = ground arith
Rule-complete (override_settle h k n) = ground arith
Rule-complete (reject_proof h) = ground arith
Rule-complete (reject_receipt h) = ground arith
Rule-complete (override_reject h n) = ground arith

Rule-sound :
    (act : PaymentAction) (a : PaymentActor) (s t : PaymentStatus)
    → validate_payment_transition act a s ≡ ok t
    → Rule a act s t
unfolding validate_payment_transition
Rule-sound submit_proof a pending t h = grind (arith, rules)
Rule-sound _ a _ t h = grind (arith, rules)

-- An action takes a payment from one status to another exactly when a rule allows it: every other
-- combination of action, roles and status is refused.
pub validate_payment_transition-iff_Rule :
    (act : PaymentAction) (a : PaymentActor) (s t : PaymentStatus)
    → (validate_payment_transition act a s ≡ ok t) ↔ Rule a act s t
validate_payment_transition-iff_Rule act a s t = (Rule-sound act a s t, Rule-complete)

-- A settled payment stays settled: every action of every actor is refused as a conflict.
pub settled_is_final :
    (act : PaymentAction) (a : PaymentActor)
    → validate_payment_transition act a settled
      ≡ err (new_conflict_error "payment is already settled")
unfolding validate_payment_transition
settled_is_final act a = refl

-- A debtor who is not also the creditor brings a payment to no status but `proof_submitted` and
-- `disputed`, whatever admin roles the debtor has.
pub debtor_stays_short :
    (act : PaymentAction) (a : PaymentActor) (s t : PaymentStatus)
    → a.is_debtor ≡ true
    → a.is_creditor ≡ false
    → validate_payment_transition act a s ≡ ok t
    → (t ≡ proof_submitted) ⊎ (t ≡ disputed)
unfolding validate_payment_transition
debtor_stays_short submit_proof a s t d c h = ground arith
debtor_stays_short confirm a s t d c h = ground arith
debtor_stays_short dispute a s t d c h = ground arith
debtor_stays_short finalize a s t d c h = ground arith
debtor_stays_short reject a s t d c h = ground arith
debtor_stays_short other a s t d c h = ground arith

abbrev pub is_override : PaymentEvent → Bool
is_override payment_settled_override = true
is_override payment_rejected_override = true
is_override _ = false

-- The same actor with the powers of a group admin in place of those of the global admin.
abbrev pub as_group_admin : PaymentActor → PaymentActor
as_group_admin a = record a { is_group_admin = true; is_global_admin = false }

abbrev pub is_refused : Result PaymentStatus → Bool
is_refused (ok t) = false
is_refused (err e) = true

-- An accepted step is logged as an override exactly when a group admin in the same position would
-- have been refused.
pub override_label :
    (act : PaymentAction) (a : PaymentActor) (s t : PaymentStatus)
    → validate_payment_transition act a s ≡ ok t
    → is_override (audit_action_for act a s)
      ≡ is_refused (validate_payment_transition act (as_group_admin a) s)
unfolding validate_payment_transition audit_action_for
override_label submit_proof a s t h = ground arith
override_label confirm a s t h = ground arith
override_label dispute a s t h = ground arith
override_label finalize a s t h = ground arith
override_label reject a s t h = ground arith
override_label other a s t h = ground arith
