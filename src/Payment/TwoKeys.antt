-- ===== src/Payment/TwoKeys.antt =====
-- Whole histories of one payment.
use expense_splitter.Prelude.{◌≡◌, ◌⊎◌, inl, inr, refl, true, false, List, [], ◌∷◌, ◌++◌, All}
use expense_splitter.Types.ApiError.{ok}
use expense_splitter.Types.Payment.{
  PaymentStatus, pending, proof_submitted, creditor_confirmed, disputed, settled,
}
use expense_splitter.Payment.{
  PaymentAction, PaymentActor, submit_proof, confirm, dispute, finalize, reject,
  validate_payment_transition,
}
use expense_splitter.Payment.Rules.{
  Rule, first_proof, new_proof, receipt, denial, second_key, override_settle, reject_proof,
  reject_receipt, override_reject, validate_payment_transition-iff_Rule,
}

-- What somebody did to a payment.
abbrev pub Deed : Type 0
Deed = PaymentAction × PaymentActor

-- The deeds take the payment from one status to another, each accepted in its turn.
pub data History : PaymentStatus → List Deed → PaymentStatus → Type 0 where
  nothing : {s : PaymentStatus} → History s [] s
  deed :
      {s t u : PaymentStatus} {deeds : List Deed} (act : PaymentAction) (a : PaymentActor)
      → validate_payment_transition act a s ≡ ok t
      → History t deeds u
      → History s ((act, a) ∷ deeds) u

-- One more deed at the end.
pub History-last :
    {s t u : PaymentStatus} {deeds : List Deed} (act : PaymentAction) (a : PaymentActor)
    → History s deeds t
    → validate_payment_transition act a t ≡ ok u
    → History s (deeds ++ ((act, a) ∷ [])) u
History-last act a nothing h = deed act a h nothing
History-last act a (deed b c k rest) h = deed b c k (History-last act a rest h)

-- The last three deeds are the debtor's proof, the creditor's confirmation, and the finalizing by
-- a group admin who is not the debtor.
pub data EndsWithKeys : List Deed → Type 0 where
  keys :
      (d c f : PaymentActor)
      → d.is_debtor ≡ true
      → c.is_creditor ≡ true
      → f.is_group_admin ≡ true
      → f.is_debtor ≡ false
      → EndsWithKeys ((submit_proof, d) ∷ (confirm, c) ∷ (finalize, f) ∷ [])
  later : {deeds : List Deed} (x : Deed) → EndsWithKeys deeds → EndsWithKeys (x ∷ deeds)

-- The same with only the second key, or the last two deeds, still to come.
data Finalized : List Deed → Type 0 where
  final :
      (f : PaymentActor)
      → f.is_group_admin ≡ true
      → f.is_debtor ≡ false
      → Finalized ((finalize, f) ∷ [])

data Confirmed : List Deed → Type 0 where
  final_two :
      (c : PaymentActor) {deeds : List Deed}
      → c.is_creditor ≡ true
      → Finalized deeds
      → Confirmed ((confirm, c) ∷ deeds)

-- What is still to be done to settle a payment, by its status.
Remaining : PaymentStatus → List Deed → Type 0
Remaining pending deeds = EndsWithKeys deeds
Remaining proof_submitted deeds = Confirmed deeds ⊎ EndsWithKeys deeds
Remaining creditor_confirmed deeds = Finalized deeds ⊎ EndsWithKeys deeds
Remaining disputed deeds = EndsWithKeys deeds
Remaining settled deeds = deeds ≡ []

-- A proof, and what has to follow it.
proof_then :
    (deeds : List Deed) (a : PaymentActor)
    → a.is_debtor ≡ true
    → Confirmed deeds ⊎ EndsWithKeys deeds
    → EndsWithKeys ((submit_proof, a) ∷ deeds)
proof_then _ a h (inl (final_two c hc (final f hf hd))) = keys a c f h hc hf hd
proof_then deeds a h (inr r) = later (submit_proof, a) r

step-Remaining :
    (act : PaymentAction) (a : PaymentActor) (s t : PaymentStatus) (deeds : List Deed)
    → Rule a act s t
    → a.is_global_admin ≡ false
    → Remaining t deeds
    → Remaining s ((act, a) ∷ deeds)
unfolding Remaining
step-Remaining _ a _ _ deeds (first_proof h) g r = proof_then deeds a h r
step-Remaining _ a _ _ deeds (new_proof h) g r = proof_then deeds a h r
step-Remaining _ a _ _ deeds (receipt h) g (inl r) = inl (final_two a h r)
step-Remaining _ a _ _ deeds (receipt h) g (inr r) = inr (later (confirm, a) r)
step-Remaining _ a _ _ deeds (denial h) g r = inr (later (dispute, a) r)
step-Remaining _ a _ _ deeds (second_key h k) g r = inl (rw r (final a k h))
step-Remaining _ a _ _ deeds (override_settle h k n) g r = cc
step-Remaining _ a _ _ deeds (reject_proof h) g r = inr (later (reject, a) r)
step-Remaining _ a _ _ deeds (reject_receipt h) g r = inr (later (reject, a) r)
step-Remaining _ a _ _ deeds (override_reject h n) g r = cc

History-Remaining :
    {s u : PaymentStatus} {deeds : List Deed}
    → History s deeds u
    → All (λ x. x.1.is_global_admin ≡ false) deeds
    → u ≡ settled
    → Remaining s deeds
unfolding Remaining
History-Remaining nothing g e = rw e refl
History-Remaining (deed {s} {t} {deeds = deeds} act a h rest) g e =
    step-Remaining act a s t deeds ((validate_payment_transition-iff_Rule act a s t).0 h) g.0
      (History-Remaining rest g.1 e)

-- Two keys: in every history without a global admin that takes a new payment to `settled`, the
-- last three deeds are a proof by the debtor, a confirmation by the creditor, and a finalizing by
-- a group admin who is not the debtor, in this order.
pub two_keys :
    {deeds : List Deed}
    → History pending deeds settled
    → All (λ x. x.1.is_global_admin ≡ false) deeds
    → EndsWithKeys deeds
unfolding Remaining
two_keys h g = History-Remaining h g refl
