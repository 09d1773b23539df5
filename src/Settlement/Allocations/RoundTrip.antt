-- ===== src/Settlement/Allocations/RoundTrip.antt =====
-- `allocationsFromRows` undoes the join: it recovers each expense with its own participants.
use expense_splitter.Prelude.{
  ℕ, ◌≡◌, ◌≢◌, refl, sym, ◌∙◌, ap, none, some, List, [], ◌∷◌, ◌++◌, arith, length, map, All,
}
use mathlib.Core.List.{append-nil, append_assoc, map-append}
use expense_splitter.Prelude.Int.{ℤ}
use expense_splitter.Prelude.Dict.{Dict, lookup, insert, lookup-insert}
use expense_splitter.Settlement.Allocations.{
  ListExpenseAllocationsRow, ExpenseAllocation, modify_at, add_participant, add_row, add_rows,
  allocations_from_rows,
}

-- An expense with the participants that its shares name, each with a weight.
pub record Joined : Type 0 where
  pub id : ℕ
  pub amount : ℤ
  pub shares : List (ℕ × ℤ)

-- What the `LEFT JOIN` returns for one expense: a row for each share, or one with nulls.
share_rows : ℕ → ℤ → List (ℕ × ℤ) → List ListExpenseAllocationsRow
share_rows i a [] = []
share_rows i a ((u, w) ∷ shares) =
    record { id = i; amount_baisa = a; user_id = some u; weight = some w } ∷ share_rows i a shares

expense_rows : ℕ → ℤ → List (ℕ × ℤ) → List ListExpenseAllocationsRow
expense_rows i a [] = record { id = i; amount_baisa = a; user_id = none; weight = none } ∷ []
expense_rows i a (s ∷ shares) = share_rows i a (s ∷ shares)

pub joined_rows : List Joined → List ListExpenseAllocationsRow
joined_rows [] = []
joined_rows (e ∷ es) = expense_rows e.id e.amount e.shares ++ joined_rows es

entry : ℤ → List (ℕ × ℤ) → ExpenseAllocation
entry a shares = record {
  amount = a;
  users = map (λ s. s.0) shares;
  weights = map (λ s. s.1) shares;
}

pub allocation_of : Joined → ExpenseAllocation
unfolding entry
allocation_of e = entry e.amount e.shares

-- The ids of the expenses are distinct: `id` is the primary key.
abbrev pub DistinctIds : List Joined → Type 0
DistinctIds [] = Unit
DistinctIds (e ∷ es) = All (λ f. e.id ≢ f.id) es × DistinctIds es

modify_at-length :
    (f : ExpenseAllocation → ExpenseAllocation) (out : List ExpenseAllocation)
    (a : ExpenseAllocation)
    → modify_at f (length out) (out ++ a ∷ []) ≡ out ++ f a ∷ []
unfolding modify_at
modify_at-length f [] a = refl
modify_at-length f (x ∷ out) a = ap (◌∷◌ x) (modify_at-length f out a)

add_participant-entry :
    (u : ℕ) (w a : ℤ) (done : List (ℕ × ℤ))
    → add_participant (some u) (some w) (entry a done) ≡ entry a (done ++ (u, w) ∷ [])
unfolding add_participant entry
add_participant-entry u w a done = simp map-append

add_row_again :
    (i u : ℕ) (a b w : ℤ) (done : List (ℕ × ℤ)) (out : List ExpenseAllocation) (idx : Dict ℕ)
    → lookup i idx ≡ some (length out)
    → add_row
        (record { id = i; amount_baisa = b; user_id = some u; weight = some w })
        (out ++ entry a done ∷ [], idx)
      ≡ (out ++ entry a (done ++ (u, w) ∷ []) ∷ [], idx)
unfolding add_row
add_row_again i u a b w done out idx h =
    rw (h, add_row, modify_at-length (add_participant (some u) (some w)) out (entry a done))
      (rw (add_participant-entry u w a done))

add_row_new :
    (r : ListExpenseAllocationsRow) (out : List ExpenseAllocation) (idx : Dict ℕ)
    → lookup r.id idx ≡ none
    → add_row r (out, idx) ≡ (
      out ++ add_participant r.user_id r.weight (entry r.amount_baisa []) ∷ [],
      insert r.id (length out) idx,
    )
unfolding add_row entry
add_row_new r out idx h = rw (
  h,
  add_row,
  modify_at-length (add_participant r.user_id r.weight) out
      (record { amount = r.amount_baisa; users = []; weights = [] }),
)

-- The rows of an expense whose entry is the last one extend that entry.
add_rows-share_rows :
    (i : ℕ) (a : ℤ) (shares done : List (ℕ × ℤ)) (out : List ExpenseAllocation) (idx : Dict ℕ)
    (rest : List ListExpenseAllocationsRow)
    → lookup i idx ≡ some (length out)
    → add_rows (share_rows i a shares ++ rest) (out ++ entry a done ∷ [], idx)
      ≡ add_rows rest (out ++ entry a (done ++ shares) ∷ [], idx)
unfolding add_rows share_rows
add_rows-share_rows i a [] done out idx rest h = rw (append-nil done)
add_rows-share_rows i a ((u, w) ∷ shares) done out idx rest h =
    rw (add_row_again i u a a w done out idx h, add_rows)
      (add_rows-share_rows i a shares (done ++ (u, w) ∷ []) out idx rest h
        ∙ rw (append_assoc done ((u, w) ∷ []) shares))

-- The rows of an expense that is new make one entry, its own.
add_rows-expense_rows :
    (i : ℕ) (a : ℤ) (shares : List (ℕ × ℤ)) (out : List ExpenseAllocation) (idx : Dict ℕ)
    (rest : List ListExpenseAllocationsRow)
    → lookup i idx ≡ none
    → add_rows (expense_rows i a shares ++ rest) (out, idx)
      ≡ add_rows rest (out ++ entry a shares ∷ [], insert i (length out) idx)
unfolding expense_rows add_rows share_rows
add_rows-expense_rows i a [] out idx rest h =
    let row : ListExpenseAllocationsRow = record {
      id = i;
      amount_baisa = a;
      user_id = none;
      weight = none;
    } in
    rw (add_row_new row out idx h, add_rows) (unfold add_participant in refl)
add_rows-expense_rows i a ((u, w) ∷ shares) out idx rest h =
    let row : ListExpenseAllocationsRow = record {
      id = i;
      amount_baisa = a;
      user_id = some u;
      weight = some w;
    } in
    rw (add_row_new row out idx h, add_rows)
      (rw (add_participant-entry u w a []) (
        add_rows-share_rows i a shares ((u, w) ∷ []) out (insert i (length out) idx) rest
          (ground (arith, lookup-insert i i (length out) idx))))

-- A new key leaves the other ids unknown.
lookup-insert-none :
    (i n : ℕ) (idx : Dict ℕ) (es : List Joined)
    → All (λ e. i ≢ e.id) es
    → All (λ e. lookup e.id idx ≡ none) es
    → All (λ e. lookup e.id (insert i n idx) ≡ none) es
lookup-insert-none i n idx [] d h = tt
lookup-insert-none i n idx (e ∷ es) d h =
    (ground (arith, lookup-insert e.id i n idx), lookup-insert-none i n idx es d.1 h.1)

add_rows-joined_rows :
    (es : List Joined) (out : List ExpenseAllocation) (idx : Dict ℕ)
    → DistinctIds es
    → All (λ e. lookup e.id idx ≡ none) es
    → (add_rows (joined_rows es) (out, idx)).0 ≡ out ++ map allocation_of es
unfolding add_rows joined_rows allocation_of
add_rows-joined_rows [] out idx d h = sym (append-nil out)
add_rows-joined_rows (e ∷ es) out idx d h =
    rw (add_rows-expense_rows e.id e.amount e.shares out idx (joined_rows es) h.0, add_rows)
      (add_rows-joined_rows es (out ++ allocation_of e ∷ []) (insert e.id (length out) idx) d.1
          (lookup-insert-none e.id (length out) idx es d.0 h.1)
        ∙ append_assoc out (allocation_of e ∷ []) (map allocation_of es))

no_ids : (es : List Joined) → All (λ e. lookup {V = ℕ} e.id [] ≡ none) es
unfolding lookup
no_ids [] = tt
no_ids (e ∷ es) = (refl, no_ids es)

-- From the rows of the join, with distinct expense ids, `allocationsFromRows` recovers one
-- allocation for each expense, in order, with its amount and exactly its own participants and
-- weights; an expense with no shares has none.
pub allocations_from_rows-joined_rows :
    (es : List Joined)
    → DistinctIds es
    → allocations_from_rows (joined_rows es) ≡ map allocation_of es
unfolding allocations_from_rows
allocations_from_rows-joined_rows es d = add_rows-joined_rows es [] [] d (no_ids es)
