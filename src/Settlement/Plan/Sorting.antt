-- ===== src/Settlement/Plan/Sorting.antt =====
-- The sorted accounts do not depend on the order in which the balances are listed.
use expense_splitter.Prelude.{
  ◌+◌, ◌≡◌, refl, sym, ◌∙◌, ap, Bool, true, false, List, [], ◌∷◌, arith, length,
}
use mathlib.Core.Logic.{∥∥₁_elim}
use mathlib.Core.Option.{Option}
use mathlib.Core.List.{Perm, Permᴰ}
use expense_splitter.Prelude.Int.{eq_of_parts}
use expense_splitter.Settlement.Plan.Accounts.{length-sort_by}
use expense_splitter.Settlement.Plan.{
  Acct, MemberBalance, Transfer, accounts, debtor_less, creditor_less, insert_by, sort_by, match_up,
  compute_plan,
}

-- A strict order that tells any two different accounts apart.
record IsStrictOrder (less : Acct → Acct → Bool) : Type 0 where
  trans : (a b c : Acct) → less a b ≡ true → less b c ≡ true → less a c ≡ true
  asymm : (a b : Acct) → less a b ≡ true → less b a ≡ false
  total : (a b : Acct) → less a b ≡ false → less b a ≡ false → a ≡ b

debtor_less-IsStrictOrder : IsStrictOrder debtor_less
unfolding debtor_less
debtor_less-IsStrictOrder = record {
  trans = λ a b c h k. ground arith;
  asymm = λ a b h. ground arith;
  total = λ a b h k. ground (arith, eq_of_parts a.net b.net);
}

creditor_less-IsStrictOrder : IsStrictOrder creditor_less
unfolding creditor_less
creditor_less-IsStrictOrder = record {
  trans = λ a b c h k. ground arith;
  asymm = λ a b h. ground arith;
  total = λ a b h k. ground (arith, eq_of_parts a.net b.net);
}

module _ (less : Acct → Acct → Bool) (o : IsStrictOrder less) where
  insert_by_comm :
      (a b : Acct) (l : List Acct)
      → insert_by less a (insert_by less b l) ≡ insert_by less b (insert_by less a l)
  unfolding insert_by
  insert_by_comm a b [] = ground (arith, o.asymm a b, o.total a b)
  insert_by_comm a b (c ∷ l) = ground (
    arith,
    o.asymm a b,
    o.total a b,
    o.trans a b c,
    o.trans b a c,
    o.trans c a b,
    o.trans c b a,
    o.trans a c b,
    o.trans b c a,
    o.asymm a c,
    o.asymm b c,
    o.asymm c a,
    o.asymm c b,
    insert_by_comm a b l,
  )

-- The sorted debtors and creditors of the balances.
abbrev debtors : List MemberBalance → List Acct
debtors bs = sort_by debtor_less (accounts bs).0

abbrev creditors : List MemberBalance → List Acct
creditors bs = sort_by creditor_less (accounts bs).1

debtors_cons :
    (b : MemberBalance) (bs cs : List MemberBalance)
    → debtors bs ≡ debtors cs
    → debtors (b ∷ bs) ≡ debtors (b ∷ cs)
unfolding accounts sort_by
debtors_cons b bs cs h = ground arith

creditors_cons :
    (b : MemberBalance) (bs cs : List MemberBalance)
    → creditors bs ≡ creditors cs
    → creditors (b ∷ bs) ≡ creditors (b ∷ cs)
unfolding accounts sort_by
creditors_cons b bs cs h = ground arith

debtors_swap :
    (a b : MemberBalance) (bs : List MemberBalance) → debtors (a ∷ b ∷ bs) ≡ debtors (b ∷ a ∷ bs)
unfolding accounts sort_by
debtors_swap a b bs = ground (
  arith,
  insert_by_comm debtor_less debtor_less-IsStrictOrder (record { user = a.user_id; net = a.net })
      (record { user = b.user_id; net = b.net }) (debtors bs),
)

creditors_swap :
    (a b : MemberBalance) (bs : List MemberBalance)
    → creditors (a ∷ b ∷ bs) ≡ creditors (b ∷ a ∷ bs)
unfolding accounts sort_by
creditors_swap a b bs = ground (
  arith,
  insert_by_comm creditor_less creditor_less-IsStrictOrder
      (record { user = a.user_id; net = a.net }) (record { user = b.user_id; net = b.net })
      (creditors bs),
)

debtors-Permᴰ : {bs cs : List MemberBalance} → Permᴰ bs cs → debtors bs ≡ debtors cs
debtors-Permᴰ Permᴰ.nil = refl
debtors-Permᴰ (Permᴰ.cons {a} {b} {l₁} {l₂} e p) =
    debtors_cons a l₁ l₂ (debtors-Permᴰ p) ∙ ap (λ x. debtors (x ∷ l₂)) e
debtors-Permᴰ (Permᴰ.swap {a} {b} {a'} {b'} {l} e f) =
    debtors_swap a b l ∙ ap (λ x. debtors (x ∷ a ∷ l)) f ∙ ap (λ x. debtors (a' ∷ x ∷ l)) e
debtors-Permᴰ (Permᴰ.trans p q) = debtors-Permᴰ p ∙ debtors-Permᴰ q

creditors-Permᴰ : {bs cs : List MemberBalance} → Permᴰ bs cs → creditors bs ≡ creditors cs
creditors-Permᴰ Permᴰ.nil = refl
creditors-Permᴰ (Permᴰ.cons {a} {b} {l₁} {l₂} e p) =
    creditors_cons a l₁ l₂ (creditors-Permᴰ p) ∙ ap (λ x. creditors (x ∷ l₂)) e
creditors-Permᴰ (Permᴰ.swap {a} {b} {a'} {b'} {l} e f) =
    creditors_swap a b l ∙ ap (λ x. creditors (x ∷ a ∷ l)) f ∙ ap (λ x. creditors (a' ∷ x ∷ l)) e
creditors-Permᴰ (Permᴰ.trans p q) = creditors-Permᴰ p ∙ creditors-Permᴰ q

compute_plan_of_sorted :
    (bs : List MemberBalance)
    → compute_plan bs
      ≡ match_up (length (debtors bs) + length (creditors bs)) (debtors bs) (creditors bs)
unfolding compute_plan
compute_plan_of_sorted bs =
    rw (length-sort_by debtor_less (accounts bs).0, length-sort_by creditor_less (accounts bs).1)

plan_set : IsSet (Option (List Transfer))
plan_set = hlevel

-- `computePlan` is deterministic: balances in another order give the same plan, the same
-- transfers in the same order.
pub compute_plan-perm :
    (bs cs : List MemberBalance) → Perm bs cs → compute_plan bs ≡ compute_plan cs
compute_plan-perm bs cs p = ∥∥₁_elim p (plan_set _ _) λ q.
    rw (compute_plan_of_sorted bs, debtors-Permᴰ q, creditors-Permᴰ q)
      (sym (compute_plan_of_sorted cs))
