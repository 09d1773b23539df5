-- ===== src/Settlement/Shares.antt =====
-- services/settlement.go: `fairShares` and `weightedShares`, in `int64` arithmetic.
pub mod Reference
pub mod Exact
pub mod Equal
use expense_splitter.Prelude.{
  ℕ, zero, suc, ◌+◌, Bool, List, [], ◌∷◌, if◌then◌else◌, length, replicate,
}
use expense_splitter.Prelude.Int.{ℤ, pos, pos_part, ltb_ℤ, leb_ℤ, rem}
use expense_splitter.Prelude.Int64.{add64, sub64, mul64, quot64}

-- The `for i := range shares` of `fairShares`: `i` is the index, and `rounds` are left.
unfoldable pub fair_loop : ℤ → ℤ → ℕ → ℕ → List ℤ
fair_loop base left i zero = []
fair_loop base left i (suc rounds) =
    (if ltb_ℤ (pos i) left then add64 base (pos 1) else base) ∷ fair_loop base left (i + 1) rounds

unfoldable pub fair_shares : ℤ → ℤ → List ℤ
fair_shares total n =
    if leb_ℤ n (pos 0) then [] else fair_loop (quot64 total n) (rem total n) 0 (pos_part n)

-- `totalWeight += w`
unfoldable pub add_weights : ℤ → List ℤ → ℤ
add_weights acc [] = acc
add_weights acc (w ∷ ws) = add_weights (add64 acc w) ws

-- `shares[i] = total * w / totalWeight` and `allocated += shares[i]`: the shares and what they
-- add up to.
unfoldable pub allocate : ℤ → ℤ → List ℤ → ℤ → List ℤ × ℤ
allocate total total_weight [] allocated = ([], allocated)
allocate total total_weight (w ∷ ws) allocated =
    let share = quot64 (mul64 total w) total_weight in
    let (shares, all) = allocate total total_weight ws (add64 allocated share) in
    (share ∷ shares, all)

-- `for i := 0; rem > 0 && i < len(shares); i++ { shares[i]++; rem-- }`
unfoldable pub spread : ℤ → List ℤ → List ℤ
spread left [] = []
spread left (s ∷ shares) =
    if ltb_ℤ (pos 0) left then add64 s (pos 1) ∷ spread (sub64 left (pos 1)) shares else s ∷ shares

-- What follows once `totalWeight` is known.
unfoldable pub share_out : ℤ → ℤ → List ℤ → List ℤ
share_out total total_weight weights =
    let (shares, allocated) = allocate total total_weight weights (pos 0) in
    if leb_ℤ total_weight (pos 0)
    then replicate (length weights) (pos 0)
    else spread (sub64 total allocated) shares

unfoldable pub weighted_shares : ℤ → List ℤ → List ℤ
weighted_shares total [] = []
weighted_shares total (w ∷ ws) = share_out total (add_weights (pos 0) (w ∷ ws)) (w ∷ ws)
