-- ===== src/Settlement/Plan/Transfers.antt =====
-- Each transfer of a plan on its own: the payments that the database accepts.
use expense_splitter.Prelude.{
  ℕ, ◌≤◌, ◌<◌, ◌≡◌, ◌≢◌, refl, ap, Option, none, some, List, [], ◌∷◌, arith, All, map,
}
use expense_splitter.Prelude.Int.{pos_part}
use native.Mathlib.Nat.{le_refl}
use expense_splitter.Settlement.Plan.{MemberBalance, Transfer, compute_plan}
use expense_splitter.Settlement.Plan.Matching.{Payment, transfer}
use expense_splitter.Settlement.Plan.Payments.{paid_by, paid_to, settle-positive}
use expense_splitter.Settlement.Plan.Balances.{
  owes, is_due, debts_of, credits_of, rounds_of, compute_plan-settle, debts_of-positive,
  credits_of-positive,
}
use expense_splitter.Settlement.Plan.Settles.{
  IsBalanced, payments_of, paid_by-payments_of, paid_to-payments_of,
}

-- No user has two balances.
abbrev pub DistinctUsers : List MemberBalance → Type 0
DistinctUsers [] = Unit
DistinctUsers (b ∷ bs) = All (λ c. b.user_id ≢ c.user_id) bs × DistinctUsers bs

-- A transfer that moves a positive amount from a debtor to a creditor, who is someone else.
abbrev pub IsSound : List MemberBalance → Transfer → Type 0
IsSound bs t =
    (0 < pos_part t.amount) × (0 < owes t.from bs) × (0 < is_due t.to bs) × (t.from ≢ t.to)

abbrev pub AllSound : List MemberBalance → Option (List Transfer) → Type 0
AllSound bs none = ⊥
AllSound bs (some plan) = All (IsSound bs) plan

absent :
    (u : ℕ) (bs : List MemberBalance)
    → All (λ c. u ≢ c.user_id) bs
    → (owes u bs ≡ 0) × (is_due u bs ≡ 0)
absent u [] h = (refl, refl)
absent u (b ∷ bs) h = ground (arith, absent u bs h.1)

-- A debtor is no creditor.
one_side : (u : ℕ) (bs : List MemberBalance) → DistinctUsers bs → 0 < owes u bs → is_due u bs ≡ 0
one_side u [] h k = refl
one_side u (b ∷ bs) h k = ground (arith, absent b.user_id bs h.0, one_side u bs h.1)

-- Each payment is part of what its users pay and get.
within :
    (all l : List Payment)
    → ((u : ℕ) → (paid_by u l ≤ paid_by u all) × (paid_to u l ≤ paid_to u all))
    → All (λ p. (p.2 ≤ paid_by p.0 all) × (p.2 ≤ paid_to p.1 all)) l
within all [] h = tt
within all ((v, w, n) ∷ l) h = (ground (arith, h v, h w), within all l (λ u. ground (arith, h u)))

module _ (bs : List MemberBalance) (distinct : DistinctUsers bs) (h : IsBalanced bs) where
  IsSound-transfer :
      (p : Payment)
      → 0 < p.2
      → (p.2 ≤ paid_by p.0 (payments_of bs)) × (p.2 ≤ paid_to p.1 (payments_of bs))
      → IsSound bs (transfer p)
  IsSound-transfer (u, v, n) positive part =
      let owing : 0 < owes u bs = omega (arith, paid_by-payments_of bs h.cancels u) in
      let due : 0 < is_due v bs = omega (arith, paid_to-payments_of bs h.cancels v) in
      (
        positive,
        owing,
        due,
        λ e. absurd (omega (arith, one_side u bs distinct owing, ap (λ w. is_due w bs) e)),
      )

  AllSound-transfer :
      (l : List Payment)
      → All (λ p. 0 < p.2) l
      → All (λ p. (p.2 ≤ paid_by p.0 (payments_of bs)) × (p.2 ≤ paid_to p.1 (payments_of bs))) l
      → All (IsSound bs) (map transfer l)
  AllSound-transfer [] positive parts = tt
  AllSound-transfer (p ∷ l) positive parts =
      (IsSound-transfer p positive.0 parts.0, AllSound-transfer l positive.1 parts.1)

  -- Every transfer of the plan moves a positive amount from a member who owes to a member who is
  -- due, and the two are different, as the constraints of the payments table demand. The members
  -- are distinct, the nets cancel out, and each can be negated within an `int64`.
  pub compute_plan-AllSound : AllSound bs (compute_plan bs)
  unfolding payments_of
  compute_plan-AllSound = rw (compute_plan-settle bs h.in_range) (
      AllSound-transfer (payments_of bs)
        (settle-positive (rounds_of bs) (debts_of bs) (credits_of bs)
          (debts_of-positive bs h.in_range) (credits_of-positive bs h.in_range))
        (within (payments_of bs) (payments_of bs) (λ u. (le_refl _, le_refl _))))
