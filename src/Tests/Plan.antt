-- ===== src/Tests/Plan.antt =====
-- The plan: the reference case of the README and a case of services/settlement_test.go.
use expense_splitter.Prelude.{ℕ, ◌≡◌, refl, List, [], ◌∷◌, arith, some}
use mathlib.Core.List.Perm
use expense_splitter.Prelude.Int.{ℤ, pos, negsuc, ◌+ℤ◌, ◌-ℤ◌}
use expense_splitter.Prelude.Int64.{wrap64, add64, sub64, neg64}
use expense_splitter.Settlement.Plan.{
  MemberBalance, accounts, debtor_less, creditor_less, insert_by, sort_by, advance, pay_amount,
  match_up, compute_plan,
}
use expense_splitter.Settlement.Plan.Sorting.{compute_plan-perm}
use expense_splitter.Settlement.Plan.Settles.{
  IsBalanced, Settles, AtMost, compute_plan-Settles, compute_plan-AtMost,
}
use expense_splitter.Settlement.Plan.Transfers.{AllSound, compute_plan-AllSound}

abbrev balance : ℕ → ℤ → MemberBalance
balance u n = record { user_id = u; paid = n; fair_share = pos 0; net = n }

-- Ahmed +40, Omar +20, Mohammed -60.
abbrev trip : List MemberBalance
trip = balance 1 (pos 40) ∷ balance 2 (pos 20) ∷ balance 3 (negsuc 59) ∷ []

abbrev trip_reversed : List MemberBalance
trip_reversed = balance 2 (pos 20) ∷ balance 1 (pos 40) ∷ balance 3 (negsuc 59) ∷ []

compute_plan-trip :
    compute_plan trip
    ≡ some (
        record { from = 3; to = 1; amount = pos 40 }
        ∷ record { from = 3; to = 2; amount = pos 20 }
        ∷ [])
unfolding compute_plan accounts debtor_less creditor_less insert_by sort_by advance pay_amount
    match_up add64 sub64 neg64 wrap64 ◌+ℤ◌ ◌-ℤ◌
compute_plan-trip = refl

trip-IsBalanced : IsBalanced trip
trip-IsBalanced = omega arith

compute_plan-Settles_example : Settles trip (compute_plan trip)
compute_plan-Settles_example = compute_plan-Settles trip trip-IsBalanced

compute_plan-AtMost_example : AtMost 2 (compute_plan trip)
compute_plan-AtMost_example = compute_plan-AtMost trip trip-IsBalanced.in_range

compute_plan-perm_example : compute_plan trip ≡ compute_plan trip_reversed
compute_plan-perm_example = compute_plan-perm trip trip_reversed (Perm.swap _ _ _)

compute_plan-AllSound_example : AllSound trip (compute_plan trip)
compute_plan-AllSound_example = compute_plan-AllSound trip (omega arith) trip-IsBalanced
