-- ===== src/Services/Readings.antt =====
-- A request that has only read so far, and what it has read.
use expense_splitter.Prelude.{◌≡◌, sym, ap, Option, none, some, arith}
use expense_splitter.Types.ApiError.{ApiError}
use expense_splitter.Store.{Db}
use expense_splitter.Store.Action.{Reply, row, no_rows, failed, select, run}
use expense_splitter.Store.Rows.{one}
use expense_splitter.Store.Hoare.{Pred, Replies, Triple, Triple-run}
use expense_splitter.Services.Frame.{Anywhere, anywhere}

-- Nothing has been written.
abbrev pub Still : Db → Pred
Still db0 db = db ≡ db0

pub one-row : {A : Type 0} (o : Option A) (a : A) → one o ≡ row a → o ≡ some a
one-row none a h = ground arith
one-row (some b) a h = ground arith

module _ (db0 : Db) {A : Type 0} (f : Db → Reply A) where
  Replies-reading :
      (r : Reply A) (db : Db)
      → Still db0 db
      → f db0 ≡ r
      → Replies (λ a db'. Still db0 db' × (f db0 ≡ row a)) (r, db)
  Replies-reading (row a) db h e = (h, e)
  Replies-reading no_rows db h e = tt
  Replies-reading failed db h e = tt

  pub run-Reading :
      (e : ApiError)
      → Triple (Still db0) (run (select f) e) (λ a db. Still db0 db × (f db0 ≡ row a)) Anywhere
  run-Reading e =
      Triple-run (select f) e (anywhere _) λ id now db h. Replies-reading (f db) db h (ap f (sym h))
