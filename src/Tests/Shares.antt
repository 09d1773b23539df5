-- ===== src/Tests/Shares.antt =====
-- The shares: services/settlement_test.go and services/weighted_test.go.
use expense_splitter.Prelude.{ℕ, ◌≡◌, refl, List, [], ◌∷◌, arith, map, replicate, some}
use expense_splitter.Prelude.Int.{pos, sum_ℤ, ◌+ℤ◌, ◌-ℤ◌, ◌*ℤ◌, quot, rem}
use expense_splitter.Prelude.Int64.{wrap64, add64, sub64, mul64, quot64}
use expense_splitter.Prelude.Dict.{lookup, insert, get_or}
use expense_splitter.Settlement.Shares.{
  fair_loop, fair_shares, add_weights, allocate, spread, share_out, weighted_shares,
}
use expense_splitter.Settlement.Shares.Exact.{
  Fits, AllNearQuota, weighted_shares-sum, weighted_shares-AllNearQuota,
}
use expense_splitter.Settlement.Shares.Equal.{weighted_shares-replicate}
use expense_splitter.Settlement.Allocations.{allocations_from_rows}
use expense_splitter.Settlement.Allocations.RoundTrip.{
  Joined, joined_rows, allocation_of, allocations_from_rows-joined_rows,
}
use expense_splitter.Settlement.Fair.{
  start_at_zero, add_shares, participants, add_allocation, add_allocations, build_fair_shares,
}
use expense_splitter.Settlement.Fair.Owed.{
  Bill, to_allocation, fair_share, Reads, build_fair_shares-Reads,
}
use expense_splitter.Settlement.Fair.Total.{AddsUpTo, build_fair_shares-AddsUpTo}

-- 1000 baisa over three members.
fair_shares-thousand : fair_shares (pos 1000) (pos 3) ≡ pos 334 ∷ pos 333 ∷ pos 333 ∷ []
unfolding fair_shares fair_loop quot64 quot rem add64 wrap64 ◌+ℤ◌
fair_shares-thousand = refl

abbrev weights : List ℕ
weights = 2 ∷ 1 ∷ 4 ∷ []

weighted_shares-hundred :
    weighted_shares (pos 100) (map pos weights) ≡ pos 29 ∷ pos 14 ∷ pos 57 ∷ []
unfolding weighted_shares share_out add_weights allocate spread quot64 quot mul64 sub64 add64 wrap64
    ◌+ℤ◌ ◌-ℤ◌ ◌*ℤ◌
weighted_shares-hundred = refl

weights-Fits : Fits 100 weights
weights-Fits = omega arith

weighted_shares-sum_example : sum_ℤ (weighted_shares (pos 100) (map pos weights)) ≡ pos 100
weighted_shares-sum_example = weighted_shares-sum 100 weights (omega arith) weights-Fits

weighted_shares-AllNearQuota_example :
    AllNearQuota 100 7 weights (weighted_shares (pos 100) (map pos weights))
weighted_shares-AllNearQuota_example =
    weighted_shares-AllNearQuota 100 weights (omega arith) weights-Fits

weighted_shares-replicate_example :
    weighted_shares (pos 1000) (replicate 3 (pos 1)) ≡ fair_shares (pos 1000) (pos 3)
weighted_shares-replicate_example = weighted_shares-replicate 1000 3 (omega arith) (omega arith)

-- A hotel for all, and fuel for two of the three members.
abbrev joined : List Joined
joined =
    record { id = 4; amount = pos 100; shares = [] }
    ∷ record { id = 9; amount = pos 80; shares = (1, pos 1) ∷ (3, pos 2) ∷ [] }
    ∷ []

allocations_from_rows-joined_rows_example :
    allocations_from_rows (joined_rows joined) ≡ map allocation_of joined
allocations_from_rows-joined_rows_example = allocations_from_rows-joined_rows joined (omega arith)

abbrev members : List ℕ
members = 1 ∷ 2 ∷ 3 ∷ []

abbrev bills : List Bill
bills =
    record { amount = 100; users = []; weights = [] }
    ∷ record { amount = 80; users = 1 ∷ 3 ∷ []; weights = 1 ∷ 2 ∷ [] }
    ∷ []

build_fair_shares-bills :
    build_fair_shares members (map to_allocation bills)
    ≡ some ((1, pos 61) ∷ (2, pos 33) ∷ (3, pos 86) ∷ [])
unfolding build_fair_shares add_allocations add_allocation add_shares participants start_at_zero
    get_or lookup insert weighted_shares share_out add_weights allocate spread quot64 quot mul64
    sub64 add64 wrap64 ◌+ℤ◌ ◌-ℤ◌ ◌*ℤ◌
build_fair_shares-bills = refl

build_fair_shares-Reads_example :
    Reads (build_fair_shares members (map to_allocation bills)) (λ u. fair_share members u bills)
build_fair_shares-Reads_example = build_fair_shares-Reads members bills (omega arith) (omega arith)

build_fair_shares-AddsUpTo_example :
    AddsUpTo (build_fair_shares members (map to_allocation bills)) members 180
build_fair_shares-AddsUpTo_example =
    build_fair_shares-AddsUpTo members bills (omega arith) (omega arith) (omega arith) (omega arith)
