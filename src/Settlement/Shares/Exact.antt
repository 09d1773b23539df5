-- ===== src/Settlement/Shares/Exact.antt =====
-- `weightedShares` on amounts that fit computes the shares of the reference; their sum and bounds.
use expense_splitter.Prelude.{
  ℕ, zero, suc, ◌+◌, ◌-◌, ◌*◌, ◌/◌, ◌≤◌, ◌<◌, ◌≡◌, refl, ◌∙◌, ap, List, [], ◌∷◌, arith, sum, map,
  All,
}
use native.Mathlib.Nat.{zero-add}
use expense_splitter.Prelude.Int.{ℤ, pos, negsuc, sum_ℤ, sum_ℤ-pos}
use expense_splitter.Prelude.Int64.{two_63, add64-pos, sub64-pos, mul64-pos, quot64-pos}
use expense_splitter.Settlement.Shares.{add_weights, allocate, spread, share_out, weighted_shares}
use expense_splitter.Settlement.Shares.Reference.{
  floors, bump, split, whole_part, sum-floors-le, sum-split,
}

-- No intermediate result of `weightedShares` leaves the range of `int64`.
pub record Fits (total : ℕ) (weights : List ℕ) : Type 0 where
  pub total_fits : total < two_63
  pub weights_fit : sum weights < two_63
  pub products_fit : All (λ w. total * w < two_63) weights

add_weights-pos :
    (a : ℕ) (ws : List ℕ)
    → a + sum ws < two_63
    → add_weights (pos a) (map pos ws) ≡ pos (a + sum ws)
unfolding add_weights
add_weights-pos a [] h = ap pos (omega arith)
add_weights-pos a (w ∷ ws) h =
    rw (add64-pos a w (omega arith), add_weights)
      (add_weights-pos (a + w) ws (omega arith) ∙ ap pos (omega arith))

allocate-pos :
    (t W a : ℕ) (ws : List ℕ)
    → All (λ w. t * w < two_63) ws
    → a + sum (floors t W ws) < two_63
    → allocate (pos t) (pos W) (map pos ws) (pos a)
      ≡ (map pos (floors t W ws), pos (a + sum (floors t W ws)))
unfolding allocate
allocate-pos t W a [] h k = ap (λ n. ([], pos n)) (omega arith)
allocate-pos t W a (w ∷ ws) h k =
    rw
      (
        mul64-pos t w h.0,
        quot64-pos (t * w) W h.0,
        add64-pos a (t * w / W) (omega arith),
        allocate-pos t W (a + t * w / W) ws h.1 (omega arith),
      )
      (ap (λ n. (pos (t * w / W) ∷ map pos (floors t W ws), pos n)) (omega arith))

spread-pos :
    (r : ℕ) (ss : List ℕ) → r + sum ss < two_63 → spread (pos r) (map pos ss) ≡ map pos (bump r ss)
unfolding spread
spread-pos zero [] h = refl
spread-pos (suc r) [] h = refl
spread-pos zero (s ∷ ss) h = refl
spread-pos (suc r) (s ∷ ss) h = ground (
  arith,
  add64-pos s 1 (omega arith),
  sub64-pos (suc r) 1 (omega arith) (omega arith),
  spread-pos r ss (omega arith),
)

share_out-pos :
    (t W : ℕ) (ws : List ℕ)
    → 0 < W
    → All (λ w. t * w < two_63) ws
    → sum (floors t W ws) ≤ t
    → t < two_63
    → share_out (pos t) (pos W) (map pos ws)
      ≡ map pos (bump (t - sum (floors t W ws)) (floors t W ws))
unfolding share_out
share_out-pos t zero ws h fits below small = absurd (omega arith)
share_out-pos t (suc W) ws h fits below small =
    let parts = floors t (suc W) ws in
    rw
      (
        allocate-pos t (suc W) 0 ws fits (omega arith),
        zero-add (sum parts),
        sub64-pos t (sum parts) below small,
      )
      (ground (arith, spread-pos (t - sum parts) parts (omega arith)))

-- On a total and weights that fit, the `int64` code computes the reference shares.
pub weighted_shares-split :
    (t : ℕ) (ws : List ℕ)
    → 0 < sum ws
    → Fits t ws
    → weighted_shares (pos t) (map pos ws) ≡ map pos (split t ws)
unfolding weighted_shares
weighted_shares-split t [] h fits = absurd (omega arith)
weighted_shares-split t (w ∷ ws) h fits =
    ap (λ W. share_out (pos t) W (map pos (w ∷ ws)))
      (add_weights-pos 0 (w ∷ ws) (omega (arith, fits.weights_fit)) ∙ ap pos (zero-add _))
    ∙ share_out-pos t (sum (w ∷ ws)) (w ∷ ws) h fits.products_fit (sum-floors-le t (w ∷ ws) h)
        fits.total_fits

-- The shares that `weightedShares` returns add up to the total exactly: no baisa is created or
-- lost. The total and the weights are not negative, as the CHECKs of the tables demand, the weights
-- are not all zero, and no intermediate result leaves the range of `int64`.
pub weighted_shares-sum :
    (t : ℕ) (ws : List ℕ)
    → 0 < sum ws
    → Fits t ws
    → sum_ℤ (weighted_shares (pos t) (map pos ws)) ≡ pos t
weighted_shares-sum t ws h fits =
    rw (weighted_shares-split t ws h fits) (sum_ℤ-pos (split t ws) ∙ ap pos (sum-split t ws h))

-- A share of the weight `w` of `W` that is less than one baisa below, and at most one above, the
-- exact quota `total * w / W`.
abbrev pub NearQuota : ℕ → ℕ → ℕ → ℤ → Type 0
NearQuota t W w (pos s) = (t * w < s * W + W) × (s * W ≤ t * w + W)
NearQuota t W w (negsuc _) = ⊥

abbrev pub AllNearQuota : ℕ → ℕ → List ℕ → List ℤ → Type 0
AllNearQuota t W [] [] = Unit
AllNearQuota t W (w ∷ ws) (s ∷ ss) = NearQuota t W w s × AllNearQuota t W ws ss
AllNearQuota t W _ _ = ⊥

bump-AllNearQuota :
    (t W r : ℕ) (ws : List ℕ) → 0 < W → AllNearQuota t W ws (map pos (bump r (floors t W ws)))
bump-AllNearQuota t W zero [] h = tt
bump-AllNearQuota t W (suc r) [] h = tt
bump-AllNearQuota t W zero (w ∷ ws) h =
    let part = whole_part (t * w) W h in
    ((omega arith, omega arith), bump-AllNearQuota t W zero ws h)
bump-AllNearQuota t W (suc r) (w ∷ ws) h =
    let part = whole_part (t * w) W h in ((omega arith, omega arith), bump-AllNearQuota t W r ws h)

-- Every share that `weightedShares` returns is, in the participants' order, less than one baisa
-- below and at most one above the participant's exact quota. The total and the weights are not
-- negative, the weights are not all zero, and no intermediate result leaves the range of `int64`.
pub weighted_shares-AllNearQuota :
    (t : ℕ) (ws : List ℕ)
    → 0 < sum ws
    → Fits t ws
    → AllNearQuota t (sum ws) ws (weighted_shares (pos t) (map pos ws))
weighted_shares-AllNearQuota t ws h fits =
    rw (weighted_shares-split t ws h fits)
      (bump-AllNearQuota t (sum ws) (t - sum (floors t (sum ws) ws)) ws h)
