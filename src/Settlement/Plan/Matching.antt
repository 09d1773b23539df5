-- ===== src/Settlement/Plan/Matching.antt =====
-- The matching loop over natural amounts, and that the `int64` loop computes it.
use expense_splitter.Prelude.{
  ℕ, zero, suc, ◌+◌, ◌-◌, ◌≤◌, ◌<◌, ◌≡◌, ◌⊎◌, refl, ◌∙◌, some, List, [], ◌∷◌, arith, All, length,
  map, ltb, if◌then◌else◌, inl, inr,
}
use expense_splitter.Prelude.Int.{
  ℤ, pos, negsuc, pos_part, neg_part, ◌+ℤ◌, ◌-ℤ◌, eq_of_parts, int_laws,
}
use expense_splitter.Prelude.Int64.{two_63, add64_exact, add64, neg64, wrap64, sub64-pos}
use expense_splitter.Settlement.Plan.{Acct, Transfer, advance, pay_amount, match_up}

-- A user and an amount, owed or due.
abbrev pub Entry : Type 0
Entry = ℕ × ℕ

-- A debt of `n` is a net of -n.
abbrev pub minus : ℕ → ℤ
minus zero = pos 0
minus (suc n) = negsuc n

abbrev pub debt : Entry → Acct
debt (u, n) = record { user = u; net = minus n }

abbrev pub credit : Entry → Acct
credit (u, n) = record { user = u; net = pos n }

-- An amount that an `int64` holds with either sign, and that is not zero.
abbrev pub IsOpen : Entry → Type 0
IsOpen (_, n) = (0 < n) × (n < two_63)

-- An entry leaves the list when nothing is left of it.
abbrev pub keep : ℕ → ℕ → List Entry → List Entry
keep u zero rest = rest
keep u (suc n) rest = (u, suc n) ∷ rest

abbrev pub lesser : ℕ → ℕ → ℕ
lesser a b = if ltb b a then b else a

-- One transfer for the two heads, then the rest: a debt, a credit and a number of rounds.
abbrev pub Payment : Type 0
Payment = ℕ × ℕ × ℕ

abbrev pub settle : ℕ → List Entry → List Entry → List Payment
settle rounds [] credits = []
settle rounds (d ∷ debts) [] = []
settle zero (d ∷ debts) (c ∷ credits) = []
settle (suc rounds) ((u, a) ∷ debts) ((v, b) ∷ credits) =
    (u, v, lesser a b)
    ∷ settle rounds (keep u (a - lesser a b) debts) (keep v (b - lesser a b) credits)

abbrev pub transfer : Payment → Transfer
transfer (u, v, n) = record { from = u; to = v; amount = pos n }

-- The arithmetic of one round.
pay_amount-lesser :
    (u v a b : ℕ) → a < two_63 → pay_amount (debt (u, a)) (credit (v, b)) ≡ pos (lesser a b)
unfolding pay_amount neg64 wrap64 ◌-ℤ◌
pay_amount-lesser u v zero b h = ground arith
pay_amount-lesser u v (suc a) b h = ground arith

minus_parts : (n : ℕ) → (pos_part (minus n) ≡ 0) × (neg_part (minus n) ≡ n)
minus_parts zero = (refl, refl)
minus_parts (suc n) = (refl, refl)

minus_add : (a n : ℕ) → n ≤ a → minus a +ℤ pos n ≡ minus (a - n)
minus_add a n h =
    eq_of_parts (minus a +ℤ pos n) (minus (a - n))
      (omega (int_laws, minus_parts a, minus_parts (a - n)))

add64-minus : (a n : ℕ) → n ≤ a → a < two_63 → add64 (minus a) (pos n) ≡ minus (a - n)
add64-minus a n h k =
    add64_exact (minus a) (pos n) (rw (minus_add a n h) (omega (arith, minus_parts (a - n))))
    ∙ minus_add a n h

advance-debt :
    (u n : ℕ) (rest : List Entry) → advance (debt (u, n)) (map debt rest) ≡ map debt (keep u n rest)
unfolding advance
advance-debt u zero rest = refl
advance-debt u (suc n) rest = ground arith

advance-credit :
    (u n : ℕ) (rest : List Entry)
    → advance (credit (u, n)) (map credit rest) ≡ map credit (keep u n rest)
unfolding advance
advance-credit u zero rest = refl
advance-credit u (suc n) rest = ground arith

keep-IsOpen :
    (u n : ℕ) (rest : List Entry) → n < two_63 → All IsOpen rest → All IsOpen (keep u n rest)
keep-IsOpen u zero rest h k = k
keep-IsOpen u (suc n) rest h k = ((omega arith, h), k)

length-keep-le : (u n : ℕ) (rest : List Entry) → length (keep u n rest) ≤ suc (length rest)
length-keep-le u zero rest = omega arith
length-keep-le u (suc n) rest = omega arith

length-keep_zero : (u n : ℕ) (rest : List Entry) → n ≡ 0 → length (keep u n rest) ≡ length rest
length-keep_zero u zero rest e = refl
length-keep_zero u (suc n) rest e = absurd (omega arith)

-- Every round settles the debt or the credit.
pub one_settled : (a b : ℕ) → (a - lesser a b ≡ 0) ⊎ (b - lesser a b ≡ 0)
one_settled a b = ground arith

pub lesser-le : (a b : ℕ) → (lesser a b ≤ a) × (lesser a b ≤ b)
lesser-le a b = ground arith

pub length-keep :
    (u v a b : ℕ) (debts credits : List Entry)
    → length (keep u (a - lesser a b) debts) + length (keep v (b - lesser a b) credits)
      ≤ suc (length debts + length credits)
length-keep u v a b debts credits =
    let less_d = length-keep-le u (a - lesser a b) debts in
    let less_c = length-keep-le v (b - lesser a b) credits in
    elim (one_settled a b) [
      | inl e ↦ omega (arith, length-keep_zero u (a - lesser a b) debts e)
      | inr e ↦ omega (arith, length-keep_zero v (b - lesser a b) credits e)
    ]

-- With a round for each account the loop does not run out of rounds, and computes the payments.
pub match_up-settle :
    (rounds : ℕ) (debts credits : List Entry)
    → All IsOpen debts
    → All IsOpen credits
    → length debts + length credits ≤ rounds
    → match_up rounds (map debt debts) (map credit credits)
      ≡ some (map transfer (settle rounds debts credits))
unfolding match_up
match_up-settle zero [] credits hd hc k = refl
match_up-settle (suc rounds) [] credits hd hc k = refl
match_up-settle zero (d ∷ debts) [] hd hc k = refl
match_up-settle (suc rounds) (d ∷ debts) [] hd hc k = refl
match_up-settle zero (d ∷ debts) (c ∷ credits) hd hc k = absurd (omega arith)
match_up-settle (suc rounds) ((u, a) ∷ debts) ((v, b) ∷ credits) hd hc k =
    let m = lesser a b in
    let (m_a, m_b) = lesser-le a b in
    rw (
      pay_amount-lesser u v a b hd.0.1,
      add64-minus a m m_a hd.0.1,
      sub64-pos b m m_b hc.0.1,
      advance-debt u (a - m) debts,
      advance-credit v (b - m) credits,
      match_up-settle rounds (keep u (a - m) debts) (keep v (b - m) credits)
          (keep-IsOpen u (a - m) debts (omega arith) hd.1)
          (keep-IsOpen v (b - m) credits (omega arith) hc.1)
          (omega (arith, length-keep u v a b debts credits)),
    )
