-- ===== src/Settlement/Shares/Equal.antt =====
-- With equal weights `weightedShares` is `fairShares`, as the comment in the source promises.
use expense_splitter.Prelude.{
  ℕ, zero, suc, ◌+◌, ◌*◌, ◌/◌, ◌%◌, ◌≤◌, ◌<◌, ◌≡◌, refl, sym, ◌∙◌, ap, ◌∷◌, arith, sum, map, All,
  replicate,
}
use native.Mathlib.Nat.{div-add-mod, div-le_self, mul-one}
use expense_splitter.Prelude.Int.{pos, rem-pos}
use expense_splitter.Prelude.Int64.{two_63, add64-pos, quot64-pos}
use expense_splitter.Settlement.Shares.{fair_loop, fair_shares, weighted_shares}
use expense_splitter.Settlement.Shares.Reference.{floors, bump, split}
use expense_splitter.Settlement.Shares.Exact.{Fits, weighted_shares-split}

-- From the index `r` on nobody gets an extra baisa.
fair_loop_rest : (b r i k : ℕ) → r ≤ i → fair_loop (pos b) (pos r) i k ≡ map pos (replicate k b)
unfolding fair_loop
fair_loop_rest b r i zero h = refl
fair_loop_rest b r i (suc k) h = ground (arith, fair_loop_rest b r (i + 1) k)

-- `d` of the members from index `i` on are below the remainder `r`.
fair_loop-bump :
    (b r i d k : ℕ)
    → r ≡ i + d
    → b + 1 < two_63
    → fair_loop (pos b) (pos r) i k ≡ map pos (bump d (replicate k b))
unfolding fair_loop
fair_loop-bump b r i zero k e h = fair_loop_rest b r i k (omega arith)
fair_loop-bump b r i (suc d) zero e h = refl
fair_loop-bump b r i (suc d) (suc k) e h =
    ground (arith, add64-pos b 1 h, fair_loop-bump b r (i + 1) d k (omega arith) h)

sum-ones : (n : ℕ) → sum (replicate n 1) ≡ n
sum-ones zero = refl
sum-ones (suc n) = omega (arith, sum-ones n)

map-replicate : (n : ℕ) → map pos (replicate n 1) ≡ replicate n (pos 1)
map-replicate zero = refl
map-replicate (suc n) = ap (◌∷◌ (pos 1)) (map-replicate n)

floors-ones : (t W k : ℕ) → floors t W (replicate k 1) ≡ replicate k (t * 1 / W)
floors-ones t W zero = refl
floors-ones t W (suc k) = ap (◌∷◌ (t * 1 / W)) (floors-ones t W k)

sum-replicate : (k b : ℕ) → sum (replicate k b) ≡ k * b
sum-replicate zero b = omega arith
sum-replicate (suc k) b = omega (arith, sum-replicate k b)

All-ones : (t k : ℕ) → t < two_63 → All (λ w. t * w < two_63) (replicate k 1)
All-ones t zero h = tt
All-ones t (suc k) h = (omega arith, All-ones t k h)

ones-Fits : (t n : ℕ) → t < two_63 → n < two_63 → Fits t (replicate n 1)
ones-Fits t n h k = record {
  total_fits = h;
  weights_fit = omega (arith, sum-ones n);
  products_fit = All-ones t n h;
}

-- What is left of the total after `n` whole parts is the remainder of the division.
split-ones : (t n : ℕ) → split t (replicate n 1) ≡ bump (t % n) (replicate n (t / n))
split-ones t n =
    rw (sum-ones n, floors-ones t n n, sum-replicate n (t * 1 / n), mul-one t)
      (ap (λ r. bump r (replicate n (t / n))) (omega (arith, div-add-mod t n)))

fair_shares-pos :
    (t n : ℕ)
    → t + 1 < two_63
    → fair_shares (pos t) (pos (suc n)) ≡ map pos (bump (t % suc n) (replicate (suc n) (t / suc n)))
unfolding fair_shares
fair_shares-pos t n h =
    rw (quot64-pos t (suc n) (omega arith), rem-pos t (suc n))
      (ground (
        arith,
        fair_loop-bump (t / suc n) (t % suc n) 0 (t % suc n) (suc n) (omega arith)
            (omega (arith, div-le_self t (suc n))),
      ))

-- With `n` weights of one, `weightedShares` returns what `fairShares` returns for `n` members, for
-- a total that is not negative and below the largest `int64` and a number of members that an `int64` holds.
pub weighted_shares-replicate :
    (t n : ℕ)
    → t + 1 < two_63
    → n < two_63
    → weighted_shares (pos t) (replicate n (pos 1)) ≡ fair_shares (pos t) (pos n)
unfolding weighted_shares fair_shares
weighted_shares-replicate t zero h k = refl
weighted_shares-replicate t (suc n) h k = rw (← map-replicate (suc n)) (
    weighted_shares-split t (replicate (suc n) 1) (omega (arith, sum-ones (suc n)))
      (ones-Fits t (suc n) (omega arith) k)
    ∙ ap (map pos) (split-ones t (suc n))
    ∙ sym (fair_shares-pos t n h))
