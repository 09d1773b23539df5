-- ===== src/Settlement/Plan/Accounts.antt =====
-- The accounts of the balances as entries of natural amounts, before and after they are sorted.
use expense_splitter.Prelude.{
  ℕ, suc, ◌+◌, ◌<◌, ◌≡◌, refl, ◌∙◌, ap, Bool, List, [], ◌∷◌, arith, All, length, map, ◌==◌,
  if◌then◌else◌, Bool-cases, inl, inr,
}
use expense_splitter.Prelude.Int.{ℤ, pos, negsuc, pos_part, neg_part}
use expense_splitter.Prelude.Int64.{two_63}
use expense_splitter.Settlement.Plan.{Acct, insert_by, sort_by}
use expense_splitter.Settlement.Plan.Matching.{Entry, IsOpen, minus, debt, credit}
use expense_splitter.Settlement.Plan.Payments.{total, amount_of}

abbrev pub to_debt : Acct → Entry
to_debt a = (a.user, neg_part a.net)

abbrev pub to_credit : Acct → Entry
to_credit a = (a.user, pos_part a.net)

abbrev pub IsDebtor : Acct → Type 0
IsDebtor a = (0 < neg_part a.net) × (neg_part a.net < two_63)

abbrev pub IsCreditor : Acct → Type 0
IsCreditor a = (0 < pos_part a.net) × (pos_part a.net < two_63)

minus-neg_part : (n : ℤ) → 0 < neg_part n → minus (neg_part n) ≡ n
minus-neg_part (pos n) h = absurd (omega arith)
minus-neg_part (negsuc n) h = refl

pos-pos_part : (n : ℤ) → 0 < pos_part n → pos (pos_part n) ≡ n
pos-pos_part (pos n) h = refl
pos-pos_part (negsuc n) h = absurd (omega arith)

pub debt-to_debt : (l : List Acct) → All IsDebtor l → map debt (map to_debt l) ≡ l
debt-to_debt [] h = refl
debt-to_debt (a ∷ l) h =
    rw (debt-to_debt l h.1)
      (ap (λ n. record { user = a.user; net = n } ∷ l) (minus-neg_part a.net h.0.0))

pub credit-to_credit : (l : List Acct) → All IsCreditor l → map credit (map to_credit l) ≡ l
credit-to_credit [] h = refl
credit-to_credit (a ∷ l) h =
    rw (credit-to_credit l h.1)
      (ap (λ n. record { user = a.user; net = n } ∷ l) (pos-pos_part a.net h.0.0))

pub debts-IsOpen : (l : List Acct) → All IsDebtor l → All IsOpen (map to_debt l)
debts-IsOpen [] h = tt
debts-IsOpen (a ∷ l) h = (h.0, debts-IsOpen l h.1)

pub credits-IsOpen : (l : List Acct) → All IsCreditor l → All IsOpen (map to_credit l)
credits-IsOpen [] h = tt
credits-IsOpen (a ∷ l) h = (h.0, credits-IsOpen l h.1)

-- A sum over the accounts.
abbrev sum_of : (Acct → ℕ) → List Acct → ℕ
sum_of f [] = 0
sum_of f (a ∷ l) = f a + sum_of f l

amount_of-sum_of :
    (u : ℕ) (g : Acct → Entry) (l : List Acct)
    → amount_of u (map g l) ≡ sum_of (λ a. if (g a).0 == u then (g a).1 else 0) l
amount_of-sum_of u g [] = refl
amount_of-sum_of u g (a ∷ l) = rw (amount_of-sum_of u g l)

total-sum_of : (g : Acct → Entry) (l : List Acct) → total (map g l) ≡ sum_of (λ a. (g a).1) l
total-sum_of g [] = refl
total-sum_of g (a ∷ l) = rw (total-sum_of g l)

-- Sorting keeps what holds of each account, their number, and every sum over them.
module _ (less : Acct → Acct → Bool) where
  insert_by-All :
      (P : Acct → Type 0) (a : Acct) (l : List Acct) → P a → All P l → All P (insert_by less a l)
  unfolding insert_by
  insert_by-All P a [] p h = (p, tt)
  insert_by-All P a (b ∷ l) p h = elim (Bool-cases (less b a)) [
    | inl e ↦ rw e (h.0, insert_by-All P a l p h.1)
    | inr e ↦ rw e (p, h)
  ]

  pub sort_by-All : (P : Acct → Type 0) (l : List Acct) → All P l → All P (sort_by less l)
  unfolding sort_by
  sort_by-All P [] h = tt
  sort_by-All P (a ∷ l) h = insert_by-All P a (sort_by less l) h.0 (sort_by-All P l h.1)

  length-insert_by : (a : Acct) (l : List Acct) → length (insert_by less a l) ≡ suc (length l)
  unfolding insert_by
  length-insert_by a [] = refl
  length-insert_by a (b ∷ l) = ground (arith, length-insert_by a l)

  pub length-sort_by : (l : List Acct) → length (sort_by less l) ≡ length l
  unfolding sort_by
  length-sort_by [] = refl
  length-sort_by (a ∷ l) = length-insert_by a (sort_by less l) ∙ ap suc (length-sort_by l)

  sum_of-insert_by :
      (f : Acct → ℕ) (a : Acct) (l : List Acct) → sum_of f (insert_by less a l) ≡ f a + sum_of f l
  unfolding insert_by
  sum_of-insert_by f a [] = refl
  sum_of-insert_by f a (b ∷ l) = elim (Bool-cases (less b a)) [
    | inl e ↦ rw e (omega (arith, sum_of-insert_by f a l))
    | inr e ↦ rw e refl
  ]

  sum_of-sort_by : (f : Acct → ℕ) (l : List Acct) → sum_of f (sort_by less l) ≡ sum_of f l
  unfolding sort_by
  sum_of-sort_by f [] = refl
  sum_of-sort_by f (a ∷ l) =
      omega (arith, sum_of-insert_by f a (sort_by less l), sum_of-sort_by f l)

  pub amount_of-sort_by :
      (u : ℕ) (g : Acct → Entry) (l : List Acct)
      → amount_of u (map g (sort_by less l)) ≡ amount_of u (map g l)
  amount_of-sort_by u g l =
      rw (amount_of-sum_of u g (sort_by less l), amount_of-sum_of u g l)
        (sum_of-sort_by (λ a. if (g a).0 == u then (g a).1 else 0) l)

  pub total-sort_by :
      (g : Acct → Entry) (l : List Acct) → total (map g (sort_by less l)) ≡ total (map g l)
  total-sort_by g l =
      rw (total-sum_of g (sort_by less l), total-sum_of g l) (sum_of-sort_by (λ a. (g a).1) l)
