-- ===== src/Settlement/Fair/Total.antt =====
-- The fair shares of the members add up to what the expenses cost.
use expense_splitter.Prelude.{
  ℕ, ◌+◌, ◌*◌, ◌<◌, ◌≡◌, refl, sym, ◌∙◌, ap, Option, none, some, List, [], ◌∷◌, arith, length, sum,
  map, All, ◌==◌, if◌then◌else◌, count, Distinct,
}
use expense_splitter.Prelude.Int.{ℤ, pos, sum_ℤ, +ℤ-pos}
use expense_splitter.Prelude.Int64.{two_63}
use expense_splitter.Prelude.Dict.{Dict, get_or}
use expense_splitter.Settlement.Shares.Reference.{split, sum-split}
use expense_splitter.Settlement.Fair.{build_fair_shares}
use expense_splitter.Settlement.Fair.Owed.{
  Bill, to_allocation, or_members, bill_users, bill_weights, owed, bill_share, fair_share,
  total_amount, IsProper, Reads, length-split, users-weights, build_fair_shares-Reads,
}

-- The sum of a function over the members.
abbrev sum_over : (ℕ → ℕ) → List ℕ → ℕ
sum_over f [] = 0
sum_over f (m ∷ ms) = f m + sum_over f ms

sum_over_add :
    (f g : ℕ → ℕ) (ms : List ℕ) → sum_over (λ m. f m + g m) ms ≡ sum_over f ms + sum_over g ms
sum_over_add f g [] = omega arith
sum_over_add f g (m ∷ ms) = omega (arith, sum_over_add f g ms)

sum_over_zero : (ms : List ℕ) → sum_over (λ m. 0) ms ≡ 0
sum_over_zero [] = refl
sum_over_zero (m ∷ ms) = omega (arith, sum_over_zero ms)

-- What goes to one user is counted as often as the user is a member.
sum_over_one : (v s : ℕ) (ms : List ℕ) → sum_over (λ m. if v == m then s else 0) ms ≡ count v ms * s
sum_over_one v s [] = omega arith
sum_over_one v s (m ∷ ms) = ground (arith, sum_over_one v s ms)

-- Shares that go to members, each listed once, are all owed by members.
sum_over-owed :
    (ms us ss : List ℕ)
    → length us ≡ length ss
    → All (λ u. count u ms ≡ 1) us
    → sum_over (λ m. owed m us ss) ms ≡ sum ss
sum_over-owed ms [] [] e h = sum_over_zero ms
sum_over-owed ms [] (s ∷ ss) e h = absurd (omega arith)
sum_over-owed ms (u ∷ us) [] e h = absurd (omega arith)
sum_over-owed ms (u ∷ us) (s ∷ ss) e h =
    sum_over_add (λ m. if u == m then s else 0) (λ m. owed m us ss) ms
    ∙ omega
        (arith, sum_over_one u s ms, ap (λ n. n * s) h.0, sum_over-owed ms us ss (omega arith) h.1)

-- The participants that an expense names are members.
abbrev pub NamesMembers : List ℕ → Bill → Type 0
NamesMembers members b = All (λ u. count u members ≡ 1) b.users

module _ (members : List ℕ) (distinct : Distinct members) where
  users-members :
      (users : List ℕ)
      → All (λ u. count u members ≡ 1) users
      → All (λ u. count u members ≡ 1) (or_members members users)
  users-members [] h = distinct
  users-members (u ∷ users) h = h

  sum_over-bill_share :
      (b : Bill)
      → IsProper members b
      → NamesMembers members b
      → sum_over (λ m. bill_share members m b) members ≡ b.amount
  sum_over-bill_share b p h =
      let ws = bill_weights members b in
      sum_over-owed members (bill_users members b) (split b.amount ws)
        (users-weights members b p ∙ sym (length-split b.amount ws)) (users-members b.users h)
      ∙ sum-split b.amount ws p.weighted

  sum_over-fair_share :
      (bills : List Bill)
      → All (IsProper members) bills
      → All (NamesMembers members) bills
      → sum_over (λ m. fair_share members m bills) members ≡ total_amount bills
  sum_over-fair_share [] p h = sum_over_zero members
  sum_over-fair_share (b ∷ bills) p h =
      sum_over_add (λ m. bill_share members m b) (λ m. fair_share members m bills) members
      ∙ omega (arith, sum_over-bill_share b p.0 h.0, sum_over-fair_share bills p.1 h.1)

-- What the map holds for the members adds up to the number.
abbrev pub AddsUpTo : Option (Dict ℤ) → List ℕ → ℕ → Type 0
AddsUpTo none members n = ⊥
AddsUpTo (some fair) members n = sum_ℤ (map (λ m. get_or fair m (pos 0)) members) ≡ pos n

AddsUpTo-Reads :
    (r : Option (Dict ℤ)) (f : ℕ → ℕ) (ms : List ℕ) → Reads r f → AddsUpTo r ms (sum_over f ms)
AddsUpTo-Reads none f ms h = h
AddsUpTo-Reads (some fair) f [] h = refl
AddsUpTo-Reads (some fair) f (m ∷ ms) h =
    rw (h m, AddsUpTo-Reads (some fair) f ms h) (+ℤ-pos (f m) (sum_over f ms))

-- The fair shares of the members add up to what the expenses cost: `buildFairShares` returns, and
-- the members' entries sum to the amounts. The members are distinct, the expenses are proper and
-- name members only, the amounts and weights are not negative, as the CHECKs of the tables demand,
-- and the amounts together fit in an `int64`.
pub build_fair_shares-AddsUpTo :
    (members : List ℕ) (bills : List Bill)
    → Distinct members
    → All (IsProper members) bills
    → All (NamesMembers members) bills
    → total_amount bills < two_63
    → AddsUpTo (build_fair_shares members (map to_allocation bills)) members (total_amount bills)
build_fair_shares-AddsUpTo members bills distinct p h k =
    rw (← sum_over-fair_share members distinct bills p h) (
      AddsUpTo-Reads _ (λ m. fair_share members m bills) members
        (build_fair_shares-Reads members bills p k))
