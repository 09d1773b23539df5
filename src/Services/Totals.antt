-- ===== src/Services/Totals.antt =====
-- The total of the paid amounts, summed over the rows of the query and over the map made of them.
use expense_splitter.Prelude.{
  append-nil, ℕ, ◌≡◌, refl, sym, ap, ◌∙◌, false, none, List, [], ◌∷◌, ◌++◌, ◌==◌, Bool-cases, inl,
  inr, arith,
}
use expense_splitter.Prelude.Int.{ℤ, pos, ◌+ℤ◌, int_laws}
use expense_splitter.Prelude.Int64.{wrap64, add64, wrap64_left, wrap64_self, wrap64-InRange}
use expense_splitter.Prelude.Dict.{Dict, lookup, insert}
use expense_splitter.Store.{ExpenseRow}
use expense_splitter.Store.Expenses.{add_to_total, totals_by}
use expense_splitter.Services.Close.{paid_map, total_paid}
use expense_splitter.Services.Summary.{total_of_rows}

-- No key twice.
abbrev pub IsMap : Dict ℤ → Type 0
IsMap [] = Unit
IsMap ((k, v) ∷ d) = (lookup k d ≡ none) × IsMap d

lookup-add_to_total :
    (j k : ℕ) (a : ℤ) (rows : Dict ℤ)
    → (k == j) ≡ false
    → lookup j rows ≡ none
    → lookup j (add_to_total (λ x y. x == y) k a rows) ≡ none
unfolding lookup add_to_total
lookup-add_to_total j k a [] other h = ground arith
lookup-add_to_total j k a ((i, v) ∷ rows) other h = ground (arith, lookup-add_to_total j k a rows)

add_to_total-IsMap :
    (k : ℕ) (a : ℤ) (rows : Dict ℤ) → IsMap rows → IsMap (add_to_total (λ x y. x == y) k a rows)
unfolding lookup add_to_total
add_to_total-IsMap k a [] h = (refl, tt)
add_to_total-IsMap k a ((i, v) ∷ rows) h = elim (Bool-cases (i == k)) [
  | inl same ↦ rw same h
  | inr other ↦
      rw other (
        lookup-add_to_total i k a rows (ground (arith, other)) h.0,
        add_to_total-IsMap k a rows h.1,
      )
]

pub totals_by-IsMap :
    (key : ExpenseRow → ℕ) (es : List ExpenseRow) → IsMap (totals_by (λ x y. x == y) key es)
unfolding totals_by
totals_by-IsMap key [] = tt
totals_by-IsMap key (e ∷ es) = add_to_total-IsMap (key e) e.amount_baisa _ (totals_by-IsMap key es)

insert-absent : (k : ℕ) (v : ℤ) (d : Dict ℤ) → lookup k d ≡ none → insert k v d ≡ d ++ ((k, v) ∷ [])
unfolding lookup insert
insert-absent k v [] h = refl
insert-absent k v ((j, w) ∷ d) h = ground (arith, insert-absent k v d)

lookup-append :
    (k j : ℕ) (v : ℤ) (d : Dict ℤ)
    → lookup k d ≡ none
    → (j == k) ≡ false
    → lookup k (d ++ ((j, v) ∷ [])) ≡ none
unfolding lookup
lookup-append k j v [] h other = ground arith
lookup-append k j v ((i, w) ∷ d) h other = ground (arith, lookup-append k j v d)

-- None of the keys is in the map.
abbrev Apart : Dict ℤ → Dict ℤ → Type 0
Apart [] d = Unit
Apart ((k, v) ∷ rows) d = (lookup k d ≡ none) × Apart rows d

Apart-append :
    (rows d : Dict ℤ) (k : ℕ) (v : ℤ)
    → lookup k rows ≡ none
    → Apart rows d
    → Apart rows (d ++ ((k, v) ∷ []))
unfolding lookup
Apart-append [] d k v h apart = tt
Apart-append ((j, w) ∷ rows) d k v h apart = (
  lookup-append j k v d apart.0 (ground (arith, h)),
  Apart-append rows d k v (ground (arith, h)) apart.1,
)

append-row : (d : Dict ℤ) (x : ℕ × ℤ) (rows : Dict ℤ) → (d ++ (x ∷ [])) ++ rows ≡ d ++ (x ∷ rows)
append-row [] x rows = refl
append-row (y ∷ d) x rows = ap (λ zs. y ∷ zs) (append-row d x rows)

paid_map-append : (rows d : Dict ℤ) → IsMap rows → Apart rows d → paid_map rows d ≡ d ++ rows
unfolding paid_map
paid_map-append [] d h apart = sym (append-nil d)
paid_map-append ((k, v) ∷ rows) d h apart = rw (insert-absent k v d apart.0) (
    paid_map-append rows (d ++ ((k, v) ∷ [])) h.1 (Apart-append rows d k v h.0 apart.1)
    ∙ append-row d (k, v) rows)

Apart-nil : (rows : Dict ℤ) → Apart rows []
unfolding lookup
Apart-nil [] = tt
Apart-nil ((k, v) ∷ rows) = (refl, Apart-nil rows)

pub paid_map_nil : (rows : Dict ℤ) → IsMap rows → paid_map rows [] ≡ rows
paid_map_nil rows h = paid_map-append rows [] h (Apart-nil rows)

twice : (a : ℤ) → wrap64 (wrap64 a) ≡ wrap64 a
twice a = wrap64_self (wrap64 a) (wrap64-InRange a)

zero_add : (t : ℤ) → pos 0 +ℤ t ≡ t
zero_add t = grind int_laws

wrapped : (rows : Dict ℤ) → wrap64 (pos 0 +ℤ total_paid rows) ≡ total_paid rows
unfolding total_paid add64 wrap64 ◌+ℤ◌
wrapped [] = refl
wrapped ((k, v) ∷ rows) =
    ap wrap64 (zero_add (wrap64 (total_paid rows +ℤ v))) ∙ twice (total_paid rows +ℤ v)

add64_zero : (t : ℤ) → t +ℤ pos 0 ≡ t
add64_zero t = grind int_laws

regroup : (t a u : ℤ) → wrap64 (wrap64 (t +ℤ a) +ℤ u) ≡ wrap64 (t +ℤ wrap64 (u +ℤ a))
regroup t a u =
    let swap : t +ℤ wrap64 (u +ℤ a) ≡ wrap64 (u +ℤ a) +ℤ t = grind int_laws in
    let reorder : (t +ℤ a) +ℤ u ≡ (u +ℤ a) +ℤ t = grind int_laws in
    wrap64_left (t +ℤ a) u ∙ ap wrap64 reorder ∙ sym (wrap64_left (u +ℤ a) t) ∙ ap wrap64 (sym swap)

total_of_rows-wraps :
    (rows : Dict ℤ) (t : ℤ) → wrap64 t ≡ t → total_of_rows t rows ≡ wrap64 (t +ℤ total_paid rows)
unfolding total_of_rows total_paid add64
total_of_rows-wraps [] t h = sym (rw (add64_zero t) h)
total_of_rows-wraps ((k, a) ∷ rows) t h =
    total_of_rows-wraps rows (wrap64 (t +ℤ a)) (twice (t +ℤ a)) ∙ regroup t a (total_paid rows)

-- The sum over the rows is the sum over the map.
pub total_of_rows-total_paid :
    (rows : Dict ℤ) → IsMap rows → total_of_rows (pos 0) rows ≡ total_paid (paid_map rows [])
unfolding wrap64
total_of_rows-total_paid rows h =
    rw (paid_map_nil rows h) (total_of_rows-wraps rows (pos 0) refl ∙ wrapped rows)
