-- ===== src/Payment.antt =====
-- services/payments.go: the state machine of a payment, `validatePaymentTransition` and
-- `auditActionFor`.
pub mod Rules
pub mod TwoKeys
pub mod Settling
use expense_splitter.Prelude.{Bool, true, false, not, ◌&&◌, ◌||◌, if◌then◌else◌}
use expense_splitter.Types.ApiError.{
  Result, ok, err, new_server_error, new_forbidden_error, new_conflict_error,
}
use expense_splitter.Types.Payment.{
  PaymentStatus, proof_submitted, creditor_confirmed, disputed, settled, is_pending,
  is_proof_submitted, is_creditor_confirmed, is_disputed, is_settled,
}

-- `other` is any string that is none of the five constants.
pub data PaymentAction : Type 0 where
  submit_proof confirm dispute finalize reject other : PaymentAction

pub record PaymentActor : Type 0 where
  pub is_debtor : Bool
  pub is_creditor : Bool
  pub is_group_admin : Bool
  pub is_global_admin : Bool

-- The `switch action`, one clause for a case.
decide_action : PaymentAction → PaymentActor → PaymentStatus → Result PaymentStatus
decide_action submit_proof actor status =
    if not actor.is_debtor
    then err (new_forbidden_error "only the debtor may submit proof")
    else if not (is_pending status) && not (is_disputed status)
    then err (new_conflict_error "proof can only be submitted for a pending or disputed payment")
    else ok proof_submitted
decide_action confirm actor status =
    if not actor.is_creditor
    then err (new_forbidden_error "only the creditor may confirm receipt")
    else if not (is_proof_submitted status)
    then err (new_conflict_error "only a submitted proof can be confirmed")
    else ok creditor_confirmed
decide_action dispute actor status =
    if not actor.is_creditor
    then err (new_forbidden_error "only the creditor may dispute receipt")
    else if not (is_proof_submitted status)
    then err (new_conflict_error "only a submitted proof can be disputed")
    else ok disputed
decide_action finalize actor status =
    if actor.is_debtor
    then err (new_forbidden_error "a debtor cannot settle their own payment")
    else if not actor.is_group_admin && not actor.is_global_admin
    then err (new_forbidden_error "only a group admin or the global admin may finalize")
    else if actor.is_global_admin
    then ok settled
    else if not (is_creditor_confirmed status)
    then err (
        new_conflict_error
          "payment requires the creditor's confirmation before it can be finalized")
    else ok settled
decide_action reject actor status =
    if not actor.is_group_admin && not actor.is_global_admin
    then err (new_forbidden_error "only a group admin or the global admin may reject")
    else if actor.is_global_admin
    then ok disputed
    else if not (is_proof_submitted status) && not (is_creditor_confirmed status)
    then err (new_conflict_error "there is nothing to reject on this payment")
    else ok disputed
decide_action other actor status = err new_server_error

unfoldable pub validate_payment_transition :
    PaymentAction → PaymentActor → PaymentStatus → Result PaymentStatus
unfolding decide_action
validate_payment_transition action actor status =
    if is_settled status
    then err (new_conflict_error "payment is already settled")
    else decide_action action actor status

-- The names of the events in the audit log; the source spells them `payment.settled.override`
-- and so on.
pub data PaymentEvent : Type 0 where
  payment_proof_submitted payment_creditor_confirmed payment_creditor_disputed : PaymentEvent
  payment_settled_override payment_settled : PaymentEvent
  payment_rejected_override payment_rejected payment_unknown : PaymentEvent

unfoldable pub audit_action_for : PaymentAction → PaymentActor → PaymentStatus → PaymentEvent
audit_action_for submit_proof actor from = payment_proof_submitted
audit_action_for confirm actor from = payment_creditor_confirmed
audit_action_for dispute actor from = payment_creditor_disputed
audit_action_for finalize actor from =
    if actor.is_global_admin && not (is_creditor_confirmed from)
    then payment_settled_override
    else payment_settled
audit_action_for reject actor from =
    if actor.is_global_admin && not (is_proof_submitted from) && not (is_creditor_confirmed from)
    then payment_rejected_override
    else payment_rejected
audit_action_for other actor from = payment_unknown
