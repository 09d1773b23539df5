-- ===== src/Settlement/Shares/Reference.antt =====
-- The shares without machine words: each participant's whole part, and the remainder one by one.
use expense_splitter.Prelude.{
  ℕ, zero, suc, ◌+◌, ◌-◌, ◌*◌, ◌/◌, ◌≤◌, ◌<◌, ◌≡◌, refl, List, [], ◌∷◌, arith, length, sum,
}
use native.Mathlib.Nat.{mul-div-le, lt-mul-div-succ, le_of_mul-le-mul_left}

-- The whole part of each share: a participant of weight `w` owes `total * w / W`.
abbrev pub floors : ℕ → ℕ → List ℕ → List ℕ
floors total W [] = []
floors total W (w ∷ ws) = total * w / W ∷ floors total W ws

-- One more for each of the first `r`.
abbrev pub bump : ℕ → List ℕ → List ℕ
bump zero shares = shares
bump (suc r) [] = []
bump (suc r) (s ∷ shares) = suc s ∷ bump r shares

abbrev pub split : ℕ → List ℕ → List ℕ
split total ws = let shares = floors total (sum ws) ws in bump (total - sum shares) shares

pub length-floors : (t W : ℕ) (ws : List ℕ) → length (floors t W ws) ≡ length ws
length-floors t W [] = refl
length-floors t W (w ∷ ws) = omega (arith, length-floors t W ws)

pub sum-bump : (r : ℕ) (ss : List ℕ) → r ≤ length ss → sum (bump r ss) ≡ r + sum ss
sum-bump zero ss h = omega arith
sum-bump (suc r) [] h = absurd (omega arith)
sum-bump (suc r) (s ∷ ss) h = omega (arith, sum-bump r ss (omega arith))

-- One division: the quotient is the largest number whose multiple fits.
pub whole_part : (a W : ℕ) → 0 < W → (W * (a / W) ≤ a) × (a < W * (a / W) + W)
whole_part a W h = (mul-div-le a W, grind (arith, lt-mul-div-succ a h))

-- The whole parts add up to at most the total, and lack less than one for each participant.
floors_bounds :
    (t W : ℕ) (ws : List ℕ)
    → 0 < W
    → (W * sum (floors t W ws) ≤ t * sum ws)
      × (t * sum ws ≤ W * sum (floors t W ws) + W * length ws)
floors_bounds t W [] h = omega arith
floors_bounds t W (w ∷ ws) h = omega (arith, whole_part (t * w) W h, floors_bounds t W ws h)

module _ (t : ℕ) (ws : List ℕ) (weighted : 0 < sum ws) where
  pub sum-floors-le : sum (floors t (sum ws) ws) ≤ t
  sum-floors-le =
      let (low, high) = floors_bounds t (sum ws) ws weighted in
      le_of_mul-le-mul_left {k = sum ws} (omega arith) weighted

  pub remainder-le : t - sum (floors t (sum ws) ws) ≤ length ws
  remainder-le =
      let (low, high) = floors_bounds t (sum ws) ws weighted in
      let bound : t ≤ sum (floors t (sum ws) ws) + length ws =
        le_of_mul-le-mul_left {k = sum ws} (omega arith) weighted in
      omega arith

  pub sum-split : sum (split t ws) ≡ t
  sum-split = omega (
    arith,
    sum-bump (t - sum (floors t (sum ws) ws)) (floors t (sum ws) ws)
        (omega (arith, remainder-le, length-floors t (sum ws) ws)),
    sum-floors-le,
  )
