-- ===== src/Settlement/Plan/Payments.antt =====
-- What the matching loop pays: every debt and every credit in full, in few payments.
use expense_splitter.Prelude.{
  ℕ, zero, suc, ◌+◌, ◌-◌, ◌≤◌, ◌<◌, ◌≡◌, refl, List, [], ◌∷◌, arith, All, length, ◌==◌,
  if◌then◌else◌,
}
use expense_splitter.Settlement.Plan.Matching.{
  Entry, Payment, keep, lesser, settle, lesser-le, length-keep,
}

abbrev pub total : List Entry → ℕ
total [] = 0
total ((u, n) ∷ entries) = n + total entries

-- What the entries hold of one user.
abbrev pub amount_of : ℕ → List Entry → ℕ
amount_of u [] = 0
amount_of u ((v, n) ∷ entries) = (if v == u then n else 0) + amount_of u entries

-- What a user pays, and what a user gets.
abbrev pub paid_by : ℕ → List Payment → ℕ
paid_by u [] = 0
paid_by u ((v, w, n) ∷ payments) = (if v == u then n else 0) + paid_by u payments

abbrev pub paid_to : ℕ → List Payment → ℕ
paid_to u [] = 0
paid_to u ((v, w, n) ∷ payments) = (if w == u then n else 0) + paid_to u payments

amount_of-le-total : (u : ℕ) (entries : List Entry) → amount_of u entries ≤ total entries
amount_of-le-total u [] = omega arith
amount_of-le-total u ((v, n) ∷ entries) = ground (arith, amount_of-le-total u entries)

total-keep : (u n : ℕ) (rest : List Entry) → total (keep u n rest) ≡ n + total rest
total-keep u zero rest = omega arith
total-keep u (suc n) rest = refl

amount_of-keep :
    (u v n : ℕ) (rest : List Entry)
    → amount_of u (keep v n rest) ≡ (if v == u then n else 0) + amount_of u rest
amount_of-keep u v zero rest = ground arith
amount_of-keep u v (suc n) rest = refl

module _ (u : ℕ) where
  -- When debts and credits balance, every user pays exactly what is owed.
  pub paid_by-settle :
      (rounds : ℕ) (debts credits : List Entry)
      → total debts ≡ total credits
      → length debts + length credits ≤ rounds
      → paid_by u (settle rounds debts credits) ≡ amount_of u debts
  paid_by-settle zero [] credits e k = refl
  paid_by-settle (suc rounds) [] credits e k = refl
  paid_by-settle zero (d ∷ debts) [] e k = absurd (omega arith)
  paid_by-settle (suc rounds) (d ∷ debts) [] e k = omega (arith, amount_of-le-total u (d ∷ debts))
  paid_by-settle zero (d ∷ debts) (c ∷ credits) e k = absurd (omega arith)
  paid_by-settle (suc rounds) ((v, a) ∷ debts) ((w, b) ∷ credits) e k =
      let m = lesser a b in
      let (m_a, m_b) = lesser-le a b in
      ground (
        arith,
        amount_of-keep u v (a - m) debts,
        m_a,
        paid_by-settle rounds (keep v (a - m) debts) (keep w (b - m) credits)
            (omega (arith, m_a, m_b, total-keep v (a - m) debts, total-keep w (b - m) credits))
            (omega (arith, length-keep v w a b debts credits)),
      )

  -- And every user gets exactly what is due.
  pub paid_to-settle :
      (rounds : ℕ) (debts credits : List Entry)
      → total debts ≡ total credits
      → length debts + length credits ≤ rounds
      → paid_to u (settle rounds debts credits) ≡ amount_of u credits
  paid_to-settle zero [] [] e k = refl
  paid_to-settle (suc rounds) [] [] e k = refl
  paid_to-settle zero [] (c ∷ credits) e k = absurd (omega arith)
  paid_to-settle (suc rounds) [] (c ∷ credits) e k =
      omega (arith, amount_of-le-total u (c ∷ credits))
  paid_to-settle zero (d ∷ debts) [] e k = refl
  paid_to-settle (suc rounds) (d ∷ debts) [] e k = refl
  paid_to-settle zero (d ∷ debts) (c ∷ credits) e k = absurd (omega arith)
  paid_to-settle (suc rounds) ((v, a) ∷ debts) ((w, b) ∷ credits) e k =
      let m = lesser a b in
      let (m_a, m_b) = lesser-le a b in
      ground (
        arith,
        amount_of-keep u w (b - m) credits,
        m_b,
        paid_to-settle rounds (keep v (a - m) debts) (keep w (b - m) credits)
            (omega (arith, m_a, m_b, total-keep v (a - m) debts, total-keep w (b - m) credits))
            (omega (arith, length-keep v w a b debts credits)),
      )

-- There are fewer payments than accounts, unless there is no account at all.
pub length-settle :
    (rounds : ℕ) (debts credits : List Entry)
    → length debts + length credits ≤ rounds
    → length (settle rounds debts credits) ≤ (length debts + length credits) - 1
length-settle zero [] credits k = omega arith
length-settle (suc rounds) [] credits k = omega arith
length-settle zero (d ∷ debts) [] k = omega arith
length-settle (suc rounds) (d ∷ debts) [] k = omega arith
length-settle zero (d ∷ debts) (c ∷ credits) k = omega arith
length-settle (suc rounds) ((u, a) ∷ debts) ((v, b) ∷ credits) k =
    let m = lesser a b in
    omega (
      arith,
      length-keep u v a b debts credits,
      length-settle rounds (keep u (a - m) debts) (keep v (b - m) credits)
          (omega (arith, length-keep u v a b debts credits)),
    )

-- Every payment is of a positive amount.
pub settle-positive :
    (rounds : ℕ) (debts credits : List Entry)
    → All (λ d. 0 < d.1) debts
    → All (λ c. 0 < c.1) credits
    → All (λ p. 0 < p.2) (settle rounds debts credits)
settle-positive zero [] credits hd hc = tt
settle-positive (suc rounds) [] credits hd hc = tt
settle-positive zero (d ∷ debts) [] hd hc = tt
settle-positive (suc rounds) (d ∷ debts) [] hd hc = tt
settle-positive zero (d ∷ debts) (c ∷ credits) hd hc = tt
settle-positive (suc rounds) ((u, a) ∷ debts) ((v, b) ∷ credits) hd hc =
    let m = lesser a b in
    (
      ground arith,
      settle-positive rounds (keep u (a - m) debts) (keep v (b - m) credits)
          (keep_positive u (a - m) debts hd.1) (keep_positive v (b - m) credits hc.1),
    )
  where
    keep_positive :
        (u n : ℕ) (rest : List Entry) → All (λ d. 0 < d.1) rest → All (λ d. 0 < d.1) (keep u n rest)
    keep_positive u zero rest h = h
    keep_positive u (suc n) rest h = (omega arith, h)
