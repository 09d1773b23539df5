-- ===== src/Services/GroupState/Rows.antt =====
-- What the queries of services/close.go and services/payments.go do to the status of a group and to
-- the counts of its payments.
use expense_splitter.Prelude.{
  ℕ, ◌+◌, ◌≡◌, ◌≤◌, refl, Bool, true, false, ◌&&◌, none, some, List, [], ◌∷◌, ◌++◌, ◌==◌,
  if◌then◌else◌, arith,
}
use expense_splitter.Types.Group.{group_closed, group_settled, is_closed}
use expense_splitter.Store.{GroupRow, PaymentRow}
use expense_splitter.Store.Rows.{find, count_rows, update_rows, exists_row}
use expense_splitter.Services.GroupState.{status_of}

module _ {ℓ} {A : Type ℓ} where
  pub count_rows-append :
      (test : A → Bool) (xs ys : List A)
      → count_rows test (xs ++ ys) ≡ count_rows test xs + count_rows test ys
  unfolding count_rows
  count_rows-append test [] ys = omega arith
  count_rows-append test (x ∷ xs) ys = ground (arith, count_rows-append test xs ys)

  -- No row that the test accepts.
  pub exists-count :
      (test : A → Bool) (xs : List A) → exists_row test xs ≡ false → count_rows test xs ≡ 0
  unfolding count_rows exists_row
  exists-count test [] h = refl
  exists-count test (x ∷ xs) h = ground (arith, exists-count test xs)

pub status_of-closed :
    (j id : ℕ) (groups : List GroupRow)
    → status_of j (update_rows (λ g. g.id == id) (λ g. record g { status = group_closed }) groups)
      ≡ (if j == id
          then (elim (status_of j groups) [ none ↦ none | some s ↦ some group_closed ])
          else status_of j groups)
unfolding find update_rows
status_of-closed j id [] = ground arith
status_of-closed j id (g ∷ groups) = ground (arith, status_of-closed j id groups)

pub status_of-settled :
    (j id : ℕ) (groups : List GroupRow)
    → status_of j (
        update_rows
          (λ g. (g.id == id) && is_closed g.status)
          (λ g. record g { status = group_settled })
          groups)
      ≡ (if j == id
          then (elim (status_of j groups) [
            | none ↦ none
            | some s ↦ some (if is_closed s then group_settled else s)
          ])
          else status_of j groups)
unfolding find update_rows
status_of-settled j id [] = ground arith
status_of-settled j id (g ∷ groups) = ground (arith, status_of-settled j id groups)

abbrev to_count : Bool → ℕ
to_count b = if b then 1 else 0

module _ (id version : ℕ) (f : PaymentRow → PaymentRow) where
  abbrev matches : PaymentRow → Bool
  matches p = (p.id == id) && (p.version == version)

  update_rows-absent :
      (test : PaymentRow → Bool) (xs : List PaymentRow)
      → count_rows (λ p. p.id == id) xs ≡ 0
      → count_rows test (update_rows matches f xs) ≡ count_rows test xs
  unfolding update_rows count_rows
  update_rows-absent test [] h = refl
  update_rows-absent test (x ∷ xs) h = ground (arith, update_rows-absent test xs)

  -- The update exchanges the one row.
  pub count_rows-update :
      (test : PaymentRow → Bool) (xs : List PaymentRow) (p : PaymentRow)
      → find matches xs ≡ some p
      → count_rows (λ q. q.id == id) xs ≤ 1
      → count_rows test (update_rows matches f xs) + to_count (test p)
        ≡ count_rows test xs + to_count (test (f p))
  unfolding update_rows count_rows find
  count_rows-update test [] p h u = ground arith
  count_rows-update test (x ∷ xs) p h u =
      ground (arith, count_rows-update test xs p, update_rows-absent test xs)

  pub count_rows-found :
      (test : PaymentRow → Bool) (xs : List PaymentRow) (p : PaymentRow)
      → find matches xs ≡ some p
      → test p ≡ true
      → 1 ≤ count_rows test xs
  unfolding count_rows find
  count_rows-found test [] p h t = ground arith
  count_rows-found test (x ∷ xs) p h t = ground (arith, count_rows-found test xs p)

  -- The row with the id, once it has the version too.
  pub find-matches :
      (xs : List PaymentRow) (p q : PaymentRow)
      → find (λ r. r.id == id) xs ≡ some p
      → p.version ≡ version
      → find matches xs ≡ some q
      → q ≡ p
  unfolding find
  find-matches [] p q h v g = ground arith
  find-matches (x ∷ xs) p q h v g = ground (arith, find-matches xs p q)

  pub find-matches-id :
      (xs : List PaymentRow) (p : PaymentRow)
      → find matches xs ≡ some p
      → (p.id ≡ id) × (p.version ≡ version)
  unfolding find
  find-matches-id [] p h = ground arith
  find-matches-id (x ∷ xs) p h = ground (arith, find-matches-id xs p)

module _ (pid : ℕ) where
  -- The row with an id, after an update of rows with another.
  pub find-update_rows :
      (test : PaymentRow → Bool) (f : PaymentRow → PaymentRow) (xs : List PaymentRow)
      → ((x : PaymentRow) → test x ≡ true → (x.id == pid) ≡ false)
      → ((x : PaymentRow) → (f x).id ≡ x.id)
      → find (λ r. r.id == pid) (update_rows test f xs) ≡ find (λ r. r.id == pid) xs
  unfolding find update_rows
  find-update_rows test f [] other keeps = refl
  find-update_rows test f (x ∷ xs) other keeps =
      ground (arith, find-update_rows test f xs other keeps, other x, keeps x)

  pub find-append :
      (xs ys : List PaymentRow) (p : PaymentRow)
      → find (λ r. r.id == pid) xs ≡ some p
      → find (λ r. r.id == pid) (xs ++ ys) ≡ some p
  unfolding find
  find-append [] ys p h = ground arith
  find-append (x ∷ xs) ys p h = ground (arith, find-append xs ys p)
