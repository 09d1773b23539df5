-- ===== src/Payment/Settling.antt =====
-- How a payment gets settled from every status.
use expense_splitter.Prelude.{
  ◌≡◌, ◌≤◌, ◌⊎◌, inl, inr, refl, true, false, List, [], ◌∷◌, All, length, arith,
}
use expense_splitter.Types.Payment.{
  PaymentStatus, pending, proof_submitted, creditor_confirmed, disputed, settled,
}
use expense_splitter.Payment.{PaymentActor, submit_proof, confirm, finalize}
use expense_splitter.Payment.Rules.{
  first_proof, new_proof, receipt, second_key, validate_payment_transition-iff_Rule,
}
use expense_splitter.Payment.TwoKeys.{Deed, History, nothing, deed}

-- Each deed is one of the three persons'.
abbrev pub IsTheirs : PaymentActor → PaymentActor → PaymentActor → Deed → Type 0
IsTheirs d c f x = (x.1 ≡ d) ⊎ (x.1 ≡ c) ⊎ (x.1 ≡ f)

-- A way to settle a payment that three persons can take.
abbrev pub WayFrom : PaymentStatus → PaymentActor → PaymentActor → PaymentActor → Type 0
WayFrom s d c f =
    (deeds : List Deed) × History s deeds settled × All (IsTheirs d c f) deeds × (length deeds ≤ 3)

module _ (d c f : PaymentActor) (debtor : d.is_debtor ≡ true) (creditor : c.is_creditor ≡ true)
    (admin : f.is_group_admin ≡ true) (other : f.is_debtor ≡ false) where
  finalized : History creditor_confirmed ((finalize, f) ∷ []) settled
  finalized =
      deed finalize f ((validate_payment_transition-iff_Rule _ _ _ _).1 (second_key other admin))
        nothing

  confirmed : History proof_submitted ((confirm, c) ∷ (finalize, f) ∷ []) settled
  confirmed =
      deed confirm c ((validate_payment_transition-iff_Rule _ _ _ _).1 (receipt creditor)) finalized

  -- From every status the debtor, the creditor and a group admin who is not the debtor can settle the
  -- payment between them, by at most three deeds that validatePaymentTransition accepts in turn.
  pub can_settle : (s : PaymentStatus) → WayFrom s d c f
  can_settle pending = (
    (submit_proof, d) ∷ (confirm, c) ∷ (finalize, f) ∷ [],
    deed submit_proof d ((validate_payment_transition-iff_Rule _ _ _ _).1 (first_proof debtor))
        confirmed,
    (inl refl, (inr (inl refl), (inr (inr refl), tt))),
    omega arith,
  )
  can_settle disputed = (
    (submit_proof, d) ∷ (confirm, c) ∷ (finalize, f) ∷ [],
    deed submit_proof d ((validate_payment_transition-iff_Rule _ _ _ _).1 (new_proof debtor))
        confirmed,
    (inl refl, (inr (inl refl), (inr (inr refl), tt))),
    omega arith,
  )
  can_settle proof_submitted = (
    (confirm, c) ∷ (finalize, f) ∷ [],
    confirmed,
    (inr (inl refl), (inr (inr refl), tt)),
    omega arith,
  )
  can_settle creditor_confirmed = ((finalize, f) ∷ [], finalized, (inr (inr refl), tt), omega arith)
  can_settle settled = ([], nothing, tt, omega arith)
