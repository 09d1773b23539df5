-- ===== src/Tests/Payments.antt =====
-- The state machine: services/payments_test.go and services/tamper_test.go.
use expense_splitter.Prelude.{◌≡◌, ◌⊎◌, ◌↔◌, refl, Bool, true, false, List, [], ◌∷◌}
use expense_splitter.Types.ApiError.{ok}
use expense_splitter.Types.Payment.{pending, proof_submitted, creditor_confirmed, disputed, settled}
use expense_splitter.Payment.{
  PaymentActor, submit_proof, confirm, dispute, finalize, reject, validate_payment_transition,
  audit_action_for,
}
use expense_splitter.Payment.Rules.{
  Rule, validate_payment_transition-iff_Rule, debtor_stays_short, is_override, is_refused,
  override_label,
}
use expense_splitter.Payment.Settling.{WayFrom, can_settle}
use expense_splitter.Payment.TwoKeys.{Deed, History, nothing, deed, EndsWithKeys, two_keys}

abbrev actor : Bool → Bool → Bool → Bool → PaymentActor
actor d c g a = record { is_debtor = d; is_creditor = c; is_group_admin = g; is_global_admin = a }

abbrev debtor : PaymentActor
debtor = actor true false false false

abbrev pub creditor : PaymentActor
creditor = actor false true false false

abbrev admin : PaymentActor
admin = actor false false true false

abbrev debtor_admin : PaymentActor
debtor_admin = actor true false true true

validate_payment_transition-iff_Rule_example :
    (validate_payment_transition finalize admin creditor_confirmed ≡ ok settled)
    ↔ Rule admin finalize creditor_confirmed settled
validate_payment_transition-iff_Rule_example =
    validate_payment_transition-iff_Rule finalize admin creditor_confirmed settled

debtor_stays_short_example : (disputed ≡ proof_submitted) ⊎ (disputed ≡ disputed)
unfolding validate_payment_transition
debtor_stays_short_example = debtor_stays_short reject debtor_admin pending disputed refl refl refl

override_label_example :
    is_override (audit_action_for finalize (actor false false false true) pending)
    ≡ is_refused (validate_payment_transition finalize admin pending)
unfolding validate_payment_transition
override_label_example = override_label finalize (actor false false false true) pending settled refl

abbrev deeds : List Deed
deeds =
    (submit_proof, debtor)
    ∷ (dispute, creditor)
    ∷ (submit_proof, debtor)
    ∷ (confirm, creditor)
    ∷ (finalize, admin)
    ∷ []

deeds-History : History pending deeds settled
unfolding validate_payment_transition
deeds-History = deed submit_proof debtor refl (
    deed dispute creditor refl (
      deed submit_proof debtor refl
        (deed confirm creditor refl (deed finalize admin refl nothing))))

two_keys_example : EndsWithKeys deeds
two_keys_example = two_keys deeds-History (refl, (refl, (refl, (refl, (refl, tt)))))

can_settle_example : WayFrom disputed debtor creditor admin
can_settle_example = can_settle debtor creditor admin refl refl refl refl disputed
