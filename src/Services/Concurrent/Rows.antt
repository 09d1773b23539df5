-- ===== src/Services/Concurrent/Rows.antt =====
-- The row of one payment through the guarded updates of the others and of itself.
use expense_splitter.Prelude.{
  ℕ, ◌≡◌, ◌≤◌, refl, true, false, ◌&&◌, some, List, [], ◌∷◌, ◌==◌, if◌then◌else◌, arith,
}
use expense_splitter.Types.Payment.{PaymentStatus}
use expense_splitter.Store.{PaymentRow}
use expense_splitter.Store.Rows.{find, count_rows, update_rows}
use expense_splitter.Services.GroupState.Payments.{set_status}

find-id :
    (id : ℕ) (ps : List PaymentRow) (q : PaymentRow)
    → find (λ r. r.id == id) ps ≡ some q
    → q.id ≡ id
unfolding find
find-id id [] q h = ground arith
find-id id (p ∷ ps) q h = ground (arith, find-id id ps q)

find-write :
    (id j v : ℕ) (t : PaymentStatus) (now : ℕ) (ps : List PaymentRow) (q : PaymentRow)
    → find (λ r. r.id == id) ps ≡ some q
    → find
        (λ r. r.id == id)
        (update_rows (λ p. (p.id == j) && (p.version == v)) (set_status t now) ps)
      ≡ some (if (q.id == j) && (q.version == v) then set_status t now q else q)
unfolding find update_rows
find-write id j v t now [] q h = ground arith
find-write id j v t now (p ∷ ps) q h = ground (arith, find-write id j v t now ps q)

guarded-count :
    (id v : ℕ) (ps : List PaymentRow) (r : PaymentRow)
    → find (λ x. (x.id == id) && (x.version == v)) ps ≡ some r
    → 1 ≤ count_rows (λ x. x.id == id) ps
unfolding find count_rows
guarded-count id v [] r h = ground arith
guarded-count id v (p ∷ ps) r h = ground (arith, guarded-count id v ps r, h)

-- The one row with an id is the one that the guard has found.
find-version :
    (id v : ℕ) (ps : List PaymentRow) (q r : PaymentRow)
    → count_rows (λ x. x.id == id) ps ≤ 1
    → find (λ x. x.id == id) ps ≡ some q
    → find (λ x. (x.id == id) && (x.version == v)) ps ≡ some r
    → q.version ≡ v
unfolding find count_rows
find-version id v [] q r single loaded found = ground arith
find-version id v (p ∷ ps) q r single loaded found =
    ground (arith, find-version id v ps q r, guarded-count id v ps r, single, loaded, found)

pub update_rows-OneEach :
    (j v : ℕ) (t : PaymentStatus) (now : ℕ) (ps : List PaymentRow) (id : ℕ)
    → count_rows
        (λ x. x.id == id)
        (update_rows (λ p. (p.id == j) && (p.version == v)) (set_status t now) ps)
      ≡ count_rows (λ x. x.id == id) ps
unfolding count_rows update_rows
update_rows-OneEach j v t now [] id = refl
update_rows-OneEach j v t now (p ∷ ps) id = ground (arith, update_rows-OneEach j v t now ps id)

module _ (id j v : ℕ) (t : PaymentStatus) (now : ℕ) (ps : List PaymentRow) (q : PaymentRow)
    (loaded : find (λ r. r.id == id) ps ≡ some q) where
  abbrev written : List PaymentRow
  written = update_rows (λ p. (p.id == j) && (p.version == v)) (set_status t now) ps

  -- An update of another payment.
  pub update_rows-other : (j == id) ≡ false → find (λ r. r.id == id) written ≡ some q
  update_rows-other other =
      ground (arith, find-id id ps q loaded, find-write id j v t now ps q loaded, other)

  -- An update of the payment, which was read in the version it still has.
  pub update_rows-own :
      (r : PaymentRow)
      → (j == id) ≡ true
      → count_rows (λ x. x.id == id) ps ≤ 1
      → find (λ x. (x.id == j) && (x.version == v)) ps ≡ some r
      → (q.version ≡ v) × (find (λ x. x.id == id) written ≡ some (set_status t now q))
  update_rows-own r same single found =
      let one : j ≡ id = ground (arith, same) in
      let read : q.version ≡ v = find-version id v ps q r single loaded (rw⁻¹ one found) in
      (read, ground (arith, find-id id ps q loaded, find-write id j v t now ps q loaded, one, read))
