-- ===== src/Settlement/Plan/Settles.antt =====
-- The plan that `computePlan` returns brings every balance to zero, in few transfers.
use expense_splitter.Prelude.{
  ℕ, ◌-◌, ◌≤◌, ◌≡◌, refl, ◌∙◌, ap, Option, none, some, List, [], ◌∷◌, arith, length, map,
  length-map, ◌==◌, if◌then◌else◌,
}
use native.Mathlib.Nat.{le_of_eq}
use expense_splitter.Prelude.Int.{ℤ, pos, ◌+ℤ◌, +ℤ-pos}
use expense_splitter.Settlement.Plan.{MemberBalance, Transfer, compute_plan}
use expense_splitter.Settlement.Plan.Matching.{Payment, settle, transfer}
use expense_splitter.Settlement.Plan.Payments.{
  paid_by, paid_to, paid_by-settle, paid_to-settle, length-settle,
}
use expense_splitter.Settlement.Plan.Balances.{
  owes, is_due, total_owed, total_due, NetsFit, debts_of, credits_of, rounds_of, length-entries,
  compute_plan-settle, amount_of-debts_of, amount_of-credits_of, total-debts_of, total-credits_of,
  rounds_of-le-length,
}

-- What the transfers take from a user, and what they bring.
abbrev pub sent_by : ℕ → List Transfer → ℤ
sent_by u [] = pos 0
sent_by u (t ∷ plan) = (if t.from == u then t.amount else pos 0) +ℤ sent_by u plan

abbrev pub sent_to : ℕ → List Transfer → ℤ
sent_to u [] = pos 0
sent_to u (t ∷ plan) = (if t.to == u then t.amount else pos 0) +ℤ sent_to u plan

-- The nets of the balances cancel out, and each of them can be negated within an `int64`.
pub record IsBalanced (balances : List MemberBalance) : Type 0 where
  pub in_range : NetsFit balances
  pub cancels : total_owed balances ≡ total_due balances

-- The loop returned a plan, which takes from every user what the user owes and brings what is due.
abbrev pub Settles : List MemberBalance → Option (List Transfer) → Type 0
Settles balances none = ⊥
Settles balances (some plan) =
    (u : ℕ) → (sent_by u plan ≡ pos (owes u balances)) × (sent_to u plan ≡ pos (is_due u balances))

sent_by-transfer : (u : ℕ) (ps : List Payment) → sent_by u (map transfer ps) ≡ pos (paid_by u ps)
sent_by-transfer u [] = refl
sent_by-transfer u ((v, w, n) ∷ ps) =
    rw (sent_by-transfer u ps) (ground (arith, +ℤ-pos n (paid_by u ps), +ℤ-pos 0 (paid_by u ps)))

sent_to-transfer : (u : ℕ) (ps : List Payment) → sent_to u (map transfer ps) ≡ pos (paid_to u ps)
sent_to-transfer u [] = refl
sent_to-transfer u ((v, w, n) ∷ ps) =
    rw (sent_to-transfer u ps) (ground (arith, +ℤ-pos n (paid_to u ps), +ℤ-pos 0 (paid_to u ps)))

-- The payments of the plan.
unfoldable pub payments_of : List MemberBalance → List Payment
payments_of bs = settle (rounds_of bs) (debts_of bs) (credits_of bs)

module _ (bs : List MemberBalance) (balanced : total_owed bs ≡ total_due bs) where
  pub paid_by-payments_of : (u : ℕ) → paid_by u (payments_of bs) ≡ owes u bs
  unfolding payments_of
  paid_by-payments_of u =
      paid_by-settle u (rounds_of bs) (debts_of bs) (credits_of bs)
        (omega (arith, total-debts_of bs, total-credits_of bs)) (le_of_eq (length-entries bs))
      ∙ amount_of-debts_of bs u

  pub paid_to-payments_of : (u : ℕ) → paid_to u (payments_of bs) ≡ is_due u bs
  unfolding payments_of
  paid_to-payments_of u =
      paid_to-settle u (rounds_of bs) (debts_of bs) (credits_of bs)
        (omega (arith, total-debts_of bs, total-credits_of bs)) (le_of_eq (length-entries bs))
      ∙ amount_of-credits_of bs u

-- `computePlan` ends with a plan that takes from every user exactly what the balances say that
-- the user owes, and brings every user exactly what is due, so that every net balance becomes
-- zero. The nets cancel out, and each of them can be negated within an `int64`.
pub compute_plan-Settles : (bs : List MemberBalance) → IsBalanced bs → Settles bs (compute_plan bs)
unfolding payments_of
compute_plan-Settles bs h = rw (compute_plan-settle bs h.in_range) (λ u. (
  sent_by-transfer u (payments_of bs) ∙ ap pos (paid_by-payments_of bs h.cancels u),
  sent_to-transfer u (payments_of bs) ∙ ap pos (paid_to-payments_of bs h.cancels u),
))

-- The loop returned a plan with at most so many transfers.
abbrev pub AtMost : ℕ → Option (List Transfer) → Type 0
AtMost n none = ⊥
AtMost n (some plan) = length plan ≤ n

-- `computePlan` ends with at most one transfer fewer than there are members: `n - 1` for `n`
-- balances, and none for no balances. Each net can be negated within an `int64`.
pub compute_plan-AtMost :
    (bs : List MemberBalance) → NetsFit bs → AtMost (length bs - 1) (compute_plan bs)
compute_plan-AtMost bs h = rw (compute_plan-settle bs h) (
    omega (
      arith,
      length-map transfer (settle (rounds_of bs) (debts_of bs) (credits_of bs)),
      length-settle (rounds_of bs) (debts_of bs) (credits_of bs) (le_of_eq (length-entries bs)),
      length-entries bs,
      rounds_of-le-length bs,
    ))
