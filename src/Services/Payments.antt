-- ===== src/Services/Payments.antt =====
-- services/payments.go: the requests on the payments. The `json` of a response is left out.
use Prim.Native.String.{String}
use expense_splitter.Prelude.{
  ℕ, suc, Bool, false, not, ◌&&◌, ◌||◌, Option, none, some, List, [], ◌∷◌, ◌==◌, leb, length,
  if◌then◌else◌,
}
use expense_splitter.Types.ApiError.{new_forbidden_error, new_not_found_error, new_conflict_error}
use expense_splitter.Types.Principal.{Principal}
use expense_splitter.Types.Membership.{is_group_admin_role, is_approved, member}
use expense_splitter.Types.Group.{GroupStatus, group_closed, group_settled, is_open}
use expense_splitter.Types.Payment.{is_settled}
use expense_splitter.Types.Proof.{text_proof}
use expense_splitter.Payment.{
  PaymentAction, PaymentActor, submit_proof, confirm, dispute, finalize, reject,
  validate_payment_transition, audit_action_for, PaymentEvent, payment_proof_submitted,
  payment_creditor_confirmed, payment_creditor_disputed, payment_settled_override, payment_settled,
  payment_rejected_override, payment_rejected, payment_unknown,
}
use expense_splitter.Store.{
  MembershipRow, PaymentRow, SettlementSnapshot, payment_status_audit, group_status_audit,
}
use expense_splitter.Store.Action.{
  Action, asks, pure, lift, raise_if, raise_unless, try_run, run, exec, in_tx, ◌>>=◌, ◌>>◌,
}
use expense_splitter.Store.Groups.{get_group_status, mark_group_settled}
use expense_splitter.Store.Memberships.{get_membership}
use expense_splitter.Store.Settlement.{
  get_payment, list_payments, get_settlement_snapshot, transition_payment_row,
  count_unsettled_payments, unset_current_proof, create_proof,
}
use expense_splitter.Store.Audit.{write_audit}
use expense_splitter.Services.Authz.{registered_caller, require_group_role}

-- The strings that `auditActionFor` returns.
abbrev pub event_name : PaymentEvent → String
event_name payment_proof_submitted = "payment.proof_submitted"
event_name payment_creditor_confirmed = "payment.creditor_confirmed"
event_name payment_creditor_disputed = "payment.creditor_disputed"
event_name payment_settled_override = "payment.settled.override"
event_name payment_settled = "payment.settled"
event_name payment_rejected_override = "payment.rejected.override"
event_name payment_rejected = "payment.rejected"
event_name payment_unknown = "payment.unknown"

abbrev pub is_approved_admin : Option MembershipRow → Bool
is_approved_admin none = false
is_approved_admin (some m) = is_group_admin_role m.role && is_approved m.status

abbrev pub actor_of : Principal → PaymentRow → Option MembershipRow → PaymentActor
actor_of caller p m = record {
  is_debtor = p.from_user_id == caller.user_id;
  is_creditor = p.to_user_id == caller.user_id;
  is_group_admin = is_approved_admin m;
  is_global_admin = caller.is_global_admin;
}

abbrev pub takes_part : PaymentActor → Bool
takes_part actor =
    actor.is_debtor || actor.is_creditor || actor.is_group_admin || actor.is_global_admin

-- `if newStatus == types.PaymentSettled { ... }`
unfoldable pub settle_group_if_done : ℕ → ℕ → Action (Unit {0})
settle_group_if_done group_id caller = do
  unsettled ← exec (count_unsettled_payments group_id)
  if unsettled == 0
      then (exec (mark_group_settled group_id)
          >> write_audit group_id caller "group.fully_settled" (group_status_audit group_closed)
              (group_status_audit group_settled))
      else pure tt

-- What follows once the payment and the actor are known.
unfoldable pub advance_payment :
    Principal
    → ℕ
    → PaymentRow
    → PaymentActor
    → PaymentAction
    → Action (Unit {0})
    → Action PaymentRow
advance_payment caller payment_id p actor action side_effect = do
  raise_unless (takes_part actor) (new_forbidden_error "you are not a participant in this payment")
  new_status ← lift (validate_payment_transition action actor p.status)
  side_effect
  updated ←
      run (transition_payment_row new_status payment_id p.version)
        (new_conflict_error "payment was modified concurrently — retry")
  write_audit p.group_id caller.user_id (event_name (audit_action_for action actor p.status))
      (payment_status_audit payment_id p.status) (payment_status_audit payment_id new_status)
  if is_settled new_status then settle_group_if_done p.group_id caller.user_id else pure tt
  pure updated

unfoldable pub transition_payment : ℕ → ℕ → PaymentAction → Action (Unit {0}) → Action PaymentRow
transition_payment subject payment_id action side_effect = do
  caller ← registered_caller subject
  in_tx (do
    p ← run (get_payment payment_id) (new_not_found_error "payment not found")
    m ← try_run (get_membership p.group_id caller.user_id)
    advance_payment caller payment_id p (actor_of caller p m) action side_effect)

-- The side effect of `SubmitProof`.
unfoldable pub store_text_proof : ℕ → String → Action (Unit {0})
store_text_proof payment_id note = asks λ env. do
  exec (unset_current_proof payment_id)
  exec (
      create_proof (record {
        payment_id = payment_id;
        proof_type = text_proof;
        sha256 = some (env.sha256 (env.bytes_of note));
        byte_size = some (length (env.bytes_of note));
        note = some note;
        storage_key = none;
      }))
  pure tt

unfoldable pub submit_payment_proof : ℕ → ℕ → String → Action PaymentRow
submit_payment_proof subject payment_id note =
    transition_payment subject payment_id submit_proof (store_text_proof payment_id note)

unfoldable pub confirm_payment : ℕ → ℕ → Action PaymentRow
confirm_payment subject payment_id = transition_payment subject payment_id confirm (pure tt)

unfoldable pub dispute_payment : ℕ → ℕ → Action PaymentRow
dispute_payment subject payment_id = transition_payment subject payment_id dispute (pure tt)

unfoldable pub finalize_payment : ℕ → ℕ → Action PaymentRow
finalize_payment subject payment_id = transition_payment subject payment_id finalize (pure tt)

unfoldable pub reject_payment : ℕ → ℕ → Action PaymentRow
reject_payment subject payment_id = transition_payment subject payment_id reject (pure tt)

pub record SettlementPlanResponse : Type 0 where
  pub group_id : ℕ
  pub group_status : GroupStatus
  pub total_count : ℕ
  pub settled_count : ℕ
  pub payments : List PaymentRow
  pub snapshot : Option SettlementSnapshot
  pub note : String

unfoldable pub count_settled : List PaymentRow → ℕ
count_settled [] = 0
count_settled (p ∷ rows) =
    if is_settled p.status then suc (count_settled rows) else count_settled rows

abbrev single_member : Option SettlementSnapshot → Bool
single_member none = false
single_member (some s) = leb s.member_count 1

-- The explanation of an empty plan.
unfoldable pub plan_note : ℕ → Option SettlementSnapshot → String
plan_note total snapshot =
    if not (total == 0)
    then ""
    else if single_member snapshot
    then "no transfers were needed: the group had a single member, so their fair share equals what they paid"
    else "no transfers were needed: every member's net balance was already zero at close"

unfoldable pub get_settlement_plan : ℕ → ℕ → Action SettlementPlanResponse
get_settlement_plan subject group_id = do
  caller ← registered_caller subject
  require_group_role caller group_id member
  status ← run (get_group_status group_id) (new_not_found_error "group not found")
  raise_if (is_open status)
      (new_conflict_error "group is not closed yet — no settlement plan exists")
  rows ← exec (list_payments group_id)
  snapshot ← try_run (get_settlement_snapshot group_id)
  pure (record {
    group_id = group_id;
    group_status = status;
    total_count = length rows;
    settled_count = count_settled rows;
    payments = rows;
    snapshot = snapshot;
    note = plan_note (length rows) snapshot;
  })
