-- ===== src/Settlement/Plan/Balances.antt =====
-- The plan that `computePlan` returns, as the payments of the loop over natural amounts.
use expense_splitter.Prelude.{
  ℕ, ◌+◌, ◌≤◌, ◌<◌, ◌≡◌, refl, sym, ◌∙◌, some, List, [], ◌∷◌, arith, All, length, map, length-map,
  ◌==◌, if◌then◌else◌,
}
use mathlib.Core.Path.{ap₂}
use native.Mathlib.Nat.{le_of_eq}
use expense_splitter.Prelude.Int.{pos_part, neg_part}
use expense_splitter.Prelude.Int64.{two_63}
use expense_splitter.Settlement.Plan.{
  MemberBalance, Acct, accounts, debtor_less, creditor_less, sort_by, match_up, compute_plan,
}
use expense_splitter.Settlement.Plan.Matching.{Entry, settle, transfer, match_up-settle}
use expense_splitter.Settlement.Plan.Accounts.{
  to_debt, to_credit, IsDebtor, IsCreditor, debt-to_debt, credit-to_credit, debts-IsOpen,
  credits-IsOpen, sort_by-All, length-sort_by, amount_of-sort_by, total-sort_by,
}
use expense_splitter.Settlement.Plan.Payments.{total, amount_of}

-- What the balances say that a user owes, and that a user is due.
abbrev pub owes : ℕ → List MemberBalance → ℕ
owes u [] = 0
owes u (b ∷ balances) = (if b.user_id == u then neg_part b.net else 0) + owes u balances

abbrev pub is_due : ℕ → List MemberBalance → ℕ
is_due u [] = 0
is_due u (b ∷ balances) = (if b.user_id == u then pos_part b.net else 0) + is_due u balances

abbrev pub total_owed : List MemberBalance → ℕ
total_owed [] = 0
total_owed (b ∷ balances) = neg_part b.net + total_owed balances

abbrev pub total_due : List MemberBalance → ℕ
total_due [] = 0
total_due (b ∷ balances) = pos_part b.net + total_due balances

-- The accounts hold what the balances say.
amount_of-debtors :
    (u : ℕ) (bs : List MemberBalance) → amount_of u (map to_debt (accounts bs).0) ≡ owes u bs
unfolding accounts
amount_of-debtors u [] = refl
amount_of-debtors u (b ∷ bs) = ground (arith, amount_of-debtors u bs)

amount_of-creditors :
    (u : ℕ) (bs : List MemberBalance) → amount_of u (map to_credit (accounts bs).1) ≡ is_due u bs
unfolding accounts
amount_of-creditors u [] = refl
amount_of-creditors u (b ∷ bs) = ground (arith, amount_of-creditors u bs)

total-debtors : (bs : List MemberBalance) → total (map to_debt (accounts bs).0) ≡ total_owed bs
unfolding accounts
total-debtors [] = refl
total-debtors (b ∷ bs) = ground (arith, total-debtors bs)

total-creditors : (bs : List MemberBalance) → total (map to_credit (accounts bs).1) ≡ total_due bs
unfolding accounts
total-creditors [] = refl
total-creditors (b ∷ bs) = ground (arith, total-creditors bs)

abbrev pub NetsFit : List MemberBalance → Type 0
NetsFit = All (λ b. (pos_part b.net < two_63) × (neg_part b.net < two_63))

accounts-signs :
    (bs : List MemberBalance)
    → NetsFit bs
    → All IsDebtor (accounts bs).0 × All IsCreditor (accounts bs).1
unfolding accounts
accounts-signs [] h = (tt, tt)
accounts-signs (b ∷ bs) h = ground (arith, accounts-signs bs h.1)

length-accounts :
    (bs : List MemberBalance) → length (accounts bs).0 + length (accounts bs).1 ≤ length bs
unfolding accounts
length-accounts [] = omega arith
length-accounts (b ∷ bs) = ground (arith, length-accounts bs)

-- The debts and the credits, sorted as the code sorts them.
pub debts_of : List MemberBalance → List Entry
debts_of bs = map to_debt (sort_by debtor_less (accounts bs).0)

pub credits_of : List MemberBalance → List Entry
credits_of bs = map to_credit (sort_by creditor_less (accounts bs).1)

pub rounds_of : List MemberBalance → ℕ
rounds_of bs = length (accounts bs).0 + length (accounts bs).1

pub length-entries :
    (bs : List MemberBalance) → length (debts_of bs) + length (credits_of bs) ≡ rounds_of bs
unfolding debts_of credits_of rounds_of
length-entries bs = omega (
  arith,
  length-map to_debt (sort_by debtor_less (accounts bs).0),
  length-map to_credit (sort_by creditor_less (accounts bs).1),
  length-sort_by debtor_less (accounts bs).0,
  length-sort_by creditor_less (accounts bs).1,
)

-- The plan is that of the loop over natural amounts.
pub compute_plan-settle :
    (bs : List MemberBalance)
    → NetsFit bs
    → compute_plan bs ≡ some (map transfer (settle (rounds_of bs) (debts_of bs) (credits_of bs)))
unfolding compute_plan debts_of credits_of accounts rounds_of
compute_plan-settle bs h =
    let ds = sort_by debtor_less (accounts bs).0 in
    let cs = sort_by creditor_less (accounts bs).1 in
    let (hd, hc) = accounts-signs bs h in
    let hd' = sort_by-All debtor_less IsDebtor (accounts bs).0 hd in
    let hc' = sort_by-All creditor_less IsCreditor (accounts bs).1 hc in
    ap₂ (match_up (rounds_of bs)) (sym (debt-to_debt ds hd')) (sym (credit-to_credit cs hc'))
    ∙ match_up-settle (rounds_of bs) (map to_debt ds) (map to_credit cs) (debts-IsOpen ds hd')
        (credits-IsOpen cs hc') (le_of_eq (length-entries bs))

module _ (bs : List MemberBalance) where
  pub amount_of-debts_of : (u : ℕ) → amount_of u (debts_of bs) ≡ owes u bs
  unfolding debts_of
  amount_of-debts_of u =
      amount_of-sort_by debtor_less u to_debt (accounts bs).0 ∙ amount_of-debtors u bs

  pub amount_of-credits_of : (u : ℕ) → amount_of u (credits_of bs) ≡ is_due u bs
  unfolding credits_of
  amount_of-credits_of u =
      amount_of-sort_by creditor_less u to_credit (accounts bs).1 ∙ amount_of-creditors u bs

  pub total-debts_of : total (debts_of bs) ≡ total_owed bs
  unfolding debts_of
  total-debts_of = total-sort_by debtor_less to_debt (accounts bs).0 ∙ total-debtors bs

  pub total-credits_of : total (credits_of bs) ≡ total_due bs
  unfolding credits_of
  total-credits_of = total-sort_by creditor_less to_credit (accounts bs).1 ∙ total-creditors bs

  pub rounds_of-le-length : rounds_of bs ≤ length bs
  unfolding rounds_of
  rounds_of-le-length = length-accounts bs

module _ (bs : List MemberBalance) (h : NetsFit bs) where
  pub debts_of-positive : All (λ d. 0 < d.1) (debts_of bs)
  unfolding debts_of
  debts_of-positive =
      positive_debts (sort_by debtor_less (accounts bs).0)
        (sort_by-All debtor_less IsDebtor (accounts bs).0 (accounts-signs bs h).0)
    where
      positive_debts : (l : List Acct) → All IsDebtor l → All (λ d. 0 < d.1) (map to_debt l)
      positive_debts [] k = tt
      positive_debts (a ∷ l) k = (k.0.0, positive_debts l k.1)

  pub credits_of-positive : All (λ c. 0 < c.1) (credits_of bs)
  unfolding credits_of
  credits_of-positive =
      positive_credits (sort_by creditor_less (accounts bs).1)
        (sort_by-All creditor_less IsCreditor (accounts bs).1 (accounts-signs bs h).1)
    where
      positive_credits : (l : List Acct) → All IsCreditor l → All (λ c. 0 < c.1) (map to_credit l)
      positive_credits [] k = tt
      positive_credits (a ∷ l) k = (k.0.0, positive_credits l k.1)
