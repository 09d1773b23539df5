-- ===== src/Settlement/Fair/Owed.antt =====
-- What each member owes by an independent description, and that `buildFairShares` computes it.
use expense_splitter.Prelude.{
  ℕ, zero, suc, ◌+◌, ◌-◌, ◌≤◌, ◌<◌, ◌≡◌, refl, sym, ◌∙◌, ap, Option, none, some, List, [], ◌∷◌,
  arith, length, sum, map, All, replicate, length-replicate, ◌==◌, if◌then◌else◌,
}
use expense_splitter.Prelude.Int.{ℤ, pos}
use expense_splitter.Prelude.Int64.{two_63, add64, add64-pos}
use expense_splitter.Prelude.Bind.{◌>>=◌}
use expense_splitter.Prelude.Dict.{Dict, insert, get_or, get_or-insert, lookup}
use expense_splitter.Settlement.Shares.Reference.{floors, bump, split, length-floors, sum-split}
use expense_splitter.Settlement.Shares.Exact.{Fits, weighted_shares-split}
use expense_splitter.Settlement.Allocations.{ExpenseAllocation}
use expense_splitter.Settlement.Fair.{
  start_at_zero, add_shares, participants, add_allocation, add_allocations, build_fair_shares,
}

-- An expense whose amount and weights are not negative.
pub record Bill : Type 0 where
  pub amount : ℕ
  pub users : List ℕ
  pub weights : List ℕ

abbrev pub to_allocation : Bill → ExpenseAllocation
to_allocation b = record { amount = pos b.amount; users = b.users; weights = map pos b.weights }

-- With no named participants every member takes part, with weight 1.
abbrev pub or_members : List ℕ → List ℕ → List ℕ
or_members members [] = members
or_members members (u ∷ users) = u ∷ users

abbrev pub or_ones : List ℕ → List ℕ → List ℕ → List ℕ
or_ones members [] weights = replicate (length members) 1
or_ones members (u ∷ users) weights = weights

abbrev pub bill_users : List ℕ → Bill → List ℕ
bill_users members b = or_members members b.users

abbrev pub bill_weights : List ℕ → Bill → List ℕ
bill_weights members b = or_ones members b.users b.weights

-- What `u` is given when the shares go to the users in order.
abbrev pub owed : ℕ → List ℕ → List ℕ → ℕ
owed u [] shares = 0
owed u (v ∷ users) [] = 0
owed u (v ∷ users) (s ∷ shares) = (if v == u then s else 0) + owed u users shares

-- The share of `u` in one expense, and in all of them.
abbrev pub bill_share : List ℕ → ℕ → Bill → ℕ
bill_share members u b = owed u (bill_users members b) (split b.amount (bill_weights members b))

abbrev pub fair_share : List ℕ → ℕ → List Bill → ℕ
fair_share members u [] = 0
fair_share members u (b ∷ bills) = bill_share members u b + fair_share members u bills

abbrev pub total_amount : List Bill → ℕ
total_amount [] = 0
total_amount (b ∷ bills) = b.amount + total_amount bills

-- A bill that the services accept: a weight for each participant, not all of them zero, and
-- products that an `int64` holds.
pub record IsProper (members : List ℕ) (b : Bill) : Type 0 where
  pub matched : length b.users ≡ length b.weights
  pub weighted : 0 < sum (bill_weights members b)
  pub fits : Fits b.amount (bill_weights members b)

-- The map reads as the function, and reads zero for a key that is missing.
abbrev pub Reads : Option (Dict ℤ) → (ℕ → ℕ) → Type 0
Reads none f = ⊥
Reads (some fair) f = (u : ℕ) → get_or fair u (pos 0) ≡ pos (f u)

owed-le-sum : (u : ℕ) (us ss : List ℕ) → owed u us ss ≤ sum ss
owed-le-sum u [] ss = omega arith
owed-le-sum u (v ∷ us) [] = omega arith
owed-le-sum u (v ∷ us) (s ∷ ss) = ground (arith, owed-le-sum u us ss)

length-bump : (r : ℕ) (ss : List ℕ) → length (bump r ss) ≡ length ss
length-bump zero ss = refl
length-bump (suc r) [] = refl
length-bump (suc r) (s ∷ ss) = ap suc (length-bump r ss)

pub length-split : (t : ℕ) (ws : List ℕ) → length (split t ws) ≡ length ws
length-split t ws =
    length-bump (t - sum (floors t (sum ws) ws)) (floors t (sum ws) ws)
    ∙ length-floors t (sum ws) ws

Reads-ext : (r : Option (Dict ℤ)) (f g : ℕ → ℕ) → ((u : ℕ) → f u ≡ g u) → Reads r f → Reads r g
Reads-ext none f g e h = h
Reads-ext (some fair) f g e h = λ u. h u ∙ ap pos (e u)

Reads-bind :
    (r : Option (Dict ℤ)) (k : Dict ℤ → Option (Dict ℤ)) (f g : ℕ → ℕ)
    → Reads r f
    → ((fair : Dict ℤ) → Reads (some fair) f → Reads (k fair) g)
    → Reads (r >>= k) g
Reads-bind none k f g h step = h
Reads-bind (some fair) k f g h step = step fair h

-- `fair[v] += s`
increase-Reads :
    (v s : ℕ) (fair : Dict ℤ) (f : ℕ → ℕ)
    → Reads (some fair) f
    → f v + s < two_63
    → Reads
        (some (insert v (add64 (get_or fair v (pos 0)) (pos s)) fair))
        (λ u. f u + (if v == u then s else 0))
increase-Reads v s fair f h k = λ u.
    rw (h v, add64-pos (f v) s k)
      (ground (arith, h u, get_or-insert u v (pos (f v + s)) (pos 0) fair))

add_shares-Reads :
    (us ss : List ℕ) (fair : Dict ℤ) (f : ℕ → ℕ)
    → length us ≡ length ss
    → Reads (some fair) f
    → ((u : ℕ) → f u + owed u us ss < two_63)
    → Reads (add_shares us (map pos ss) fair) (λ u. f u + owed u us ss)
unfolding add_shares
add_shares-Reads [] ss fair f e h k = λ u. h u ∙ ap pos (omega arith)
add_shares-Reads (v ∷ us) [] fair f e h k = absurd (omega arith)
add_shares-Reads (v ∷ us) (s ∷ ss) fair f e h k =
    let g : ℕ → ℕ = λ u. f u + (if v == u then s else 0) in
    Reads-ext (add_shares us (map pos ss) (insert v (add64 (get_or fair v (pos 0)) (pos s)) fair))
      (λ u. g u + owed u us ss) (λ u. f u + owed u (v ∷ us) (s ∷ ss)) (λ u. omega arith)
      (add_shares-Reads us ss _ g (omega arith) (increase-Reads v s fair f h (ground (arith, k v)))
        (λ u. omega (arith, k u)))

map-ones : (n : ℕ) → map pos (replicate n 1) ≡ replicate n (pos 1)
map-ones zero = refl
map-ones (suc n) = ap (◌∷◌ (pos 1)) (map-ones n)

participants-of_Bill :
    (members : List ℕ) (b : Bill)
    → participants members (to_allocation b)
      ≡ (bill_users members b, map pos (bill_weights members b))
unfolding participants
participants-of_Bill members b = go b.users
  where
    go :
        (users : List ℕ)
        → participants members
            (record { amount = pos b.amount; users = users; weights = map pos b.weights })
          ≡ (or_members members users, map pos (or_ones members users b.weights))
    go [] = ap (λ ws. (members, ws)) (sym (map-ones (length members)))
    go (u ∷ users) = refl

module _ (members : List ℕ) where
  pub users-weights :
      (b : Bill)
      → IsProper members b
      → length (bill_users members b) ≡ length (bill_weights members b)
  users-weights b h = go b.users h.matched
    where
      go :
          (users : List ℕ)
          → length users ≡ length b.weights
          → length (or_members members users) ≡ length (or_ones members users b.weights)
      go [] e = sym (length-replicate (length members) 1)
      go (u ∷ users) e = e

  add_allocation-Reads :
      (b : Bill) (fair : Dict ℤ) (f : ℕ → ℕ)
      → IsProper members b
      → Reads (some fair) f
      → ((u : ℕ) → f u + b.amount < two_63)
      → Reads (add_allocation members (to_allocation b) fair) (λ u. f u + bill_share members u b)
  unfolding add_allocation
  add_allocation-Reads b fair f p h k =
      let ws = bill_weights members b in
      rw (participants-of_Bill members b, weighted_shares-split b.amount ws p.weighted p.fits)
        (add_shares-Reads (bill_users members b) (split b.amount ws) fair f
          (users-weights b p ∙ sym (length-split b.amount ws)) h
          (λ u. omega (
            arith,
            k u,
            owed-le-sum u (bill_users members b) (split b.amount ws),
            sum-split b.amount ws p.weighted,
          )))

  bill_share-le : (u : ℕ) (b : Bill) → IsProper members b → bill_share members u b ≤ b.amount
  bill_share-le u b p =
      let ws = bill_weights members b in
      omega (
        arith,
        owed-le-sum u (bill_users members b) (split b.amount ws),
        sum-split b.amount ws p.weighted,
      )

  add_allocations-Reads :
      (bills : List Bill) (fair : Dict ℤ) (f : ℕ → ℕ)
      → All (IsProper members) bills
      → Reads (some fair) f
      → ((u : ℕ) → f u + total_amount bills < two_63)
      → Reads
          (add_allocations members (map to_allocation bills) fair)
          (λ u. f u + fair_share members u bills)
  unfolding add_allocations
  add_allocations-Reads [] fair f p h k = λ u. h u ∙ ap pos (omega arith)
  add_allocations-Reads (b ∷ bills) fair f p h k =
      let g : ℕ → ℕ = λ u. f u + bill_share members u b in
      Reads-bind (add_allocation members (to_allocation b) fair) _ g _
        (add_allocation-Reads b fair f p.0 h (λ u. omega (arith, k u)))
        (λ fair' h'.
          Reads-ext _ (λ u. g u + fair_share members u bills)
            (λ u. f u + fair_share members u (b ∷ bills)) (λ u. omega arith)
            (add_allocations-Reads bills fair' g p.1 h'
              (λ u. omega (arith, k u, bill_share-le u b p.0))))

  start_at_zero-Reads :
      (ids : List ℕ) (fair : Dict ℤ)
      → Reads (some fair) (λ u. 0)
      → Reads (some (start_at_zero ids fair)) (λ u. 0)
  unfolding start_at_zero
  start_at_zero-Reads [] fair h = h
  start_at_zero-Reads (i ∷ ids) fair h =
      start_at_zero-Reads ids (insert i (pos 0) fair)
        (λ u. ground (arith, h u, get_or-insert u i (pos 0) (pos 0) fair))

  -- `buildFairShares` does not panic, and the map that it returns reads, for every user, as the
  -- sum over the expenses of the user's part of the split; users with no part read as zero. The
  -- expenses are proper, their amounts and weights are not negative, as the CHECKs of the tables
  -- demand, and their amounts together fit in an `int64`.
  pub build_fair_shares-Reads :
      (bills : List Bill)
      → All (IsProper members) bills
      → total_amount bills < two_63
      → Reads
          (build_fair_shares members (map to_allocation bills))
          (λ u. fair_share members u bills)
  unfolding build_fair_shares
  build_fair_shares-Reads bills p k =
      Reads-ext _ (λ u. 0 + fair_share members u bills) (λ u. fair_share members u bills)
        (λ u. omega arith)
        (add_allocations-Reads bills (start_at_zero members []) (λ u. 0) p
          (start_at_zero-Reads members [] (λ u. unfold get_or lookup in refl)) (λ u. omega arith))
