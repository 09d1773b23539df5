-- ===== src/Settlement/Plan.antt =====
-- services/settlement.go: `computePlan`, with `MemberBalance` and `Transfer` of
-- types/settlement.go.
pub mod Accounts
pub mod Sorting
pub mod Matching
pub mod Payments
pub mod Balances
pub mod Settles
pub mod Transfers
use expense_splitter.Prelude.{
  ℕ, zero, suc, ◌+◌, Bool, Option, none, some, List, [], ◌∷◌, length, ltb, ◌==◌, if◌then◌else◌,
}
use expense_splitter.Prelude.Int.{ℤ, pos, ltb_ℤ, eqb_ℤ}
use expense_splitter.Prelude.Int64.{add64, sub64, neg64}
use expense_splitter.Prelude.Bind.{◌>>=◌}

pub record MemberBalance : Type 0 where
  pub user_id : ℕ
  pub paid : ℤ
  pub fair_share : ℤ
  pub net : ℤ

pub record Transfer : Type 0 where
  pub from : ℕ
  pub to : ℕ
  pub amount : ℤ

-- The local type `acct`.
pub record Acct : Type 0 where
  pub user : ℕ
  pub net : ℤ

-- The first loop: the debtors and the creditors, in the order of the balances.
unfoldable pub accounts : List MemberBalance → List Acct × List Acct
accounts [] = ([], [])
accounts (b ∷ balances) =
    let (debtors, creditors) = accounts balances in
    let account : Acct = record { user = b.user_id; net = b.net } in
    if ltb_ℤ b.net (pos 0)
    then (account ∷ debtors, creditors)
    else if ltb_ℤ (pos 0) b.net
    then (debtors, account ∷ creditors)
    else (debtors, creditors)

-- The two `less` functions: the most negative, or the largest, net first, then the user id.
unfoldable pub debtor_less : Acct → Acct → Bool
debtor_less a b = if eqb_ℤ a.net b.net then ltb a.user b.user else ltb_ℤ a.net b.net

unfoldable pub creditor_less : Acct → Acct → Bool
creditor_less a b = if eqb_ℤ a.net b.net then ltb a.user b.user else ltb_ℤ b.net a.net

-- `sort.Slice`, as an insertion sort. Both orders are total and tell any two accounts apart, so
-- every sorting algorithm returns the same list.
unfoldable pub insert_by : (Acct → Acct → Bool) → Acct → List Acct → List Acct
insert_by less a [] = a ∷ []
insert_by less a (b ∷ l) = if less b a then b ∷ insert_by less a l else a ∷ b ∷ l

unfoldable pub sort_by : (Acct → Acct → Bool) → List Acct → List Acct
sort_by less [] = []
sort_by less (a ∷ l) = insert_by less a (sort_by less l)

-- `if debtors[i].net == 0 { i++ }`: the accounts from the index on.
unfoldable pub advance : Acct → List Acct → List Acct
advance a rest = if eqb_ℤ a.net (pos 0) then rest else a ∷ rest

-- `amt`, the smaller of what is owed and what is due.
unfoldable pub pay_amount : Acct → Acct → ℤ
pay_amount d c = let owe = neg64 d.net in if ltb_ℤ c.net owe then c.net else owe

-- The loop over the two indices; `none` means that the rounds ran out.
unfoldable pub match_up : ℕ → List Acct → List Acct → Option (List Transfer)
match_up rounds [] creditors = some []
match_up rounds (d ∷ debtors) [] = some []
match_up zero (d ∷ debtors) (c ∷ creditors) = none
match_up (suc rounds) (d ∷ debtors) (c ∷ creditors) =
    let amt = pay_amount d c in
    let d' = record d { net = add64 d.net amt } in
    let c' = record c { net = sub64 c.net amt } in
    do
      plan ← match_up rounds (advance d' debtors) (advance c' creditors)
      some (record { from = d.user; to = c.user; amount = amt } ∷ plan)

-- Every round settles an account, so there are at most as many rounds as accounts.
unfoldable pub compute_plan : List MemberBalance → Option (List Transfer)
compute_plan balances =
    let (debtors, creditors) = accounts balances in
    match_up (length debtors + length creditors) (sort_by debtor_less debtors)
      (sort_by creditor_less creditors)
