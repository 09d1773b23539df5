-- ===== src/Services/Concurrent.antt =====
-- The payment requests of services/payments.go and proofs.go side by side: each transaction reads its
-- payment at one time and does the rest of `transitionPayment` at another, under the guard of the
-- version it read. The rest is one step: the database lets an UPDATE wait until no other transaction
-- holds the row and tests its WHERE on the committed row, so the updates of a payment that are kept
-- stand one after another. What a side effect and the audit log write is on other tables.
pub mod Rows
pub mod Writes
use Prim.Native.String.{String}
use expense_splitter.Prelude.{
  ℕ, ◌+◌, ◌≡◌, ◌≤◌, inl, inr, refl, ap, true, false, Option, some, List, [], ◌∷◌, ◌++◌, ◌==◌,
  if◌then◌else◌, All, Bool-cases, arith, length,
}
use expense_splitter.Types.ApiError.{ok}
use expense_splitter.Types.Principal.{Principal}
use expense_splitter.Payment.{PaymentAction, PaymentActor, submit_proof}
use expense_splitter.Payment.TwoKeys.{Deed, History, nothing, History-last}
use expense_splitter.Store.{MembershipRow, PaymentRow, Db}
use expense_splitter.Store.Action.{Env, World, Action, row, pure}
use expense_splitter.Store.Rows.{find, count_rows}
use expense_splitter.Store.Settlement.{get_payment}
use expense_splitter.Services.Payments.{actor_of, store_text_proof, advance_payment}
use expense_splitter.Services.Proofs.{store_image_proof}
use expense_splitter.Services.GroupState.{OneEach}
use expense_splitter.Services.GroupState.Quiet.{Top}
use expense_splitter.Services.GroupState.Payments.{set_status}
use expense_splitter.Services.Readings.{one-row}
use expense_splitter.Prelude.{length-append, All-map, All-remove}
use expense_splitter.Services.Frame.{done-Keeps}
use expense_splitter.Services.Frame.Proofs.{Aside, store_text_proof-Aside, store_image_proof-Aside}
use expense_splitter.Store.Hoare.{Holds-ok}
use expense_splitter.Services.Concurrent.Rows.{
  update_rows-OneEach, update_rows-other, update_rows-own,
}
use expense_splitter.Services.Concurrent.Writes.{Wrote, advance_payment-Wrote}

-- What a request does to a payment, and the side effect that `transitionPayment` is given.
pub data Work : Type 0 where
  text_work : String → Work
  image_work : List ℕ → Work
  plain_work : PaymentAction → Work

unfoldable pub action_of : Work → PaymentAction
action_of (text_work note) = submit_proof
action_of (image_work image) = submit_proof
action_of (plain_work action) = action

unfoldable pub effect_of : ℕ → Work → Action (Unit {0})
effect_of payment_id (text_work note) = store_text_proof payment_id note
effect_of payment_id (image_work image) = store_image_proof payment_id image
effect_of payment_id (plain_work action) = pure tt

-- A transaction of `transitionPayment` under way: its caller, the payment it has read, and the
-- membership that its lookup has found.
pub record Flight : Type 0 where
  pub payment_id : ℕ
  pub caller : Principal
  pub seen : PaymentRow
  pub membership : Option MembershipRow
  pub work : Work

abbrev pub flight_actor : Flight → PaymentActor
flight_actor f = actor_of f.caller f.seen f.membership

-- The rest of the transaction, as `transition_payment` runs it.
abbrev pub rest_of : Flight → Action PaymentRow
rest_of f =
    advance_payment f.caller f.payment_id f.seen (flight_actor f) (action_of f.work)
      (effect_of f.payment_id f.work)

-- The database, the transactions under way, and those that have committed, in this order.
pub record System : Type 0 where
  pub db : Db
  pub flights : List Flight
  pub committed : List Flight

-- A transaction reads its payment, does the rest and commits, or rolls back. The others may do so in
-- between.
pub data Step : System → System → Type 0 where
  load :
      {db : Db} {flights done : List Flight} (f : Flight) (uuid now : ℕ)
      → (get_payment f.payment_id uuid now db).0 ≡ row f.seen
      → Step
          (record { db = db; flights = flights; committed = done })
          (record { db = db; flights = f ∷ flights; committed = done })
  finish :
      {db : Db} {done : List Flight} (before after : List Flight) (f : Flight) (env : Env)
      (bucket tick : ℕ) (p : PaymentRow)
      → (rest_of f env (record { db = db; bucket = bucket; tick = tick })).0 ≡ ok p
      → Step
          (record { db = db; flights = before ++ (f ∷ after); committed = done })
          (record {
            db = (rest_of f env (record { db = db; bucket = bucket; tick = tick })).1.db;
            flights = before ++ after;
            committed = done ++ (f ∷ []);
          })
  roll_back :
      {db : Db} {done : List Flight} (before after : List Flight) (f : Flight)
      → Step
          (record { db = db; flights = before ++ (f ∷ after); committed = done })
          (record { db = db; flights = before ++ after; committed = done })

pub data Steps : System → System → Type 0 where
  still : {s : System} → Steps s s
  steps : {s t u : System} → Steps s t → Step t u → Steps s u

-- What the committed transactions did to a payment.
unfoldable pub deeds_on : ℕ → List Flight → List Deed
deeds_on id [] = []
deeds_on id (f ∷ fs) =
    let rest = deeds_on id fs in
    if f.payment_id == id then (action_of f.work, flight_actor f) ∷ rest else rest

effect_of-Aside : (id : ℕ) (work : Work) → Aside (effect_of id work)
unfolding effect_of
effect_of-Aside id (text_work note) = store_text_proof-Aside id note
effect_of-Aside id (image_work image) = store_image_proof-Aside id image
effect_of-Aside id (plain_work action) = λ P stable. done-Keeps tt

-- What a committed transaction has done to the payments.
abbrev HasWritten : Flight → Db → Db → Type 0
HasWritten f db db' =
    Wrote f.payment_id f.seen (flight_actor f) (action_of f.work) db.payments db'.payments

rest_of-HasWritten :
    (f : Flight) (env : Env) (w : World) (p : PaymentRow)
    → (rest_of f env w).0 ≡ ok p
    → HasWritten f w.db (rest_of f env w).1.db
rest_of-HasWritten f env w p h =
    Holds-ok (λ r db. HasWritten f w.db db) Top (rest_of f env w).0 (rest_of f env w).1 p
      ((advance_payment-Wrote w.db.payments f.caller f.payment_id f.seen (flight_actor f)
          (action_of f.work) (effect_of f.payment_id f.work)
          (effect_of-Aside f.payment_id f.work)).holds
        env w refl)
      h

abbrev row_of : ℕ → Db → Option PaymentRow
row_of id db = find (λ r. r.id == id) db.payments

-- What a transaction knows: it read a row that is older than the one there is, or the same.
abbrev Knows : Db → Flight → Type 0
Knows db f =
    (q : PaymentRow) × (row_of f.payment_id db ≡ some q)
    × (f.seen.version ≤ q.version)
    × (f.seen.version ≡ q.version → f.seen.status ≡ q.status)

Knows-written :
    (f g : Flight) (db db' : Db)
    → OneEach db.payments
    → HasWritten f db db'
    → Knows db g
    → Knows db' g
Knows-written f g db db' single (t, legal, (now, r, hit, new)) (q, found, older, same) =
    elim (Bool-cases (f.payment_id == g.payment_id)) [
      | inl own ↦
          let u =
            update_rows-own g.payment_id f.payment_id f.seen.version t now db.payments q found r own
              (single g.payment_id) hit in
          (set_status t now q, rw new u.1, omega (arith, older), λ e. ground (arith, older, e))
      | inr other ↦ (
        q,
        rw new (
            update_rows-other g.payment_id f.payment_id f.seen.version t now db.payments q found
              other),
        older,
        same,
      )
    ]

deeds_on-own :
    (id : ℕ) (done : List Flight) (f : Flight)
    → (f.payment_id == id) ≡ true
    → deeds_on id (done ++ (f ∷ [])) ≡ deeds_on id done ++ ((action_of f.work, flight_actor f) ∷ [])
unfolding deeds_on
deeds_on-own id [] f h = rw h refl
deeds_on-own id (g ∷ done) f h = elim (Bool-cases (g.payment_id == id)) [
  | inl own ↦ rw own (ap (λ ds. (action_of g.work, flight_actor g) ∷ ds) (deeds_on-own id done f h))
  | inr other ↦ rw other (deeds_on-own id done f h)
]

deeds_on-other :
    (id : ℕ) (done : List Flight) (f : Flight)
    → (f.payment_id == id) ≡ false
    → deeds_on id (done ++ (f ∷ [])) ≡ deeds_on id done
unfolding deeds_on
deeds_on-other id [] f h = rw h refl
deeds_on-other id (g ∷ done) f h = elim (Bool-cases (g.payment_id == id)) [
  | inl own ↦
      rw own (ap (λ ds. (action_of g.work, flight_actor g) ∷ ds) (deeds_on-other id done f h))
  | inr other ↦ rw other (deeds_on-other id done f h)
]

-- The row of a payment, and what brought it there from a first row.
abbrev pub CameFrom : ℕ → PaymentRow → Db → List Flight → Type 0
CameFrom id p db done =
    (q : PaymentRow) × (row_of id db ≡ some q)
    × History p.status (deeds_on id done) q.status
    × (q.version ≡ p.version + length (deeds_on id done))

CameFrom-written :
    (id : ℕ) (p : PaymentRow) (f : Flight) (db db' : Db) (done : List Flight)
    → OneEach db.payments
    → HasWritten f db db'
    → Knows db f
    → CameFrom id p db done
    → CameFrom id p db' (done ++ (f ∷ []))
CameFrom-written id p f db db' done single (t, legal, (now, r, hit, new)) (k, seen, older, same)
      (q, found, history, count) =
    elim (Bool-cases (f.payment_id == id)) [
      | inl own ↦
          let u =
            update_rows-own id f.payment_id f.seen.version t now db.payments q found r own
              (single id) hit in
          (
            set_status t now q,
            rw new u.1,
            rw (deeds_on-own id done f own)
                (History-last _ _ history (ground (arith, legal, same, seen, found, own, u.0))),
            rw (deeds_on-own id done f own) (
                ground (
                  arith,
                  count,
                  length-append (deeds_on id done) ((action_of f.work, flight_actor f) ∷ []),
                )),
          )
      | inr other ↦ (
        q,
        rw new (update_rows-other id f.payment_id f.seen.version t now db.payments q found other),
        rw (deeds_on-other id done f other) history,
        rw (deeds_on-other id done f other) count,
      )
    ]

HasWritten-OneEach :
    (f : Flight) (db db' : Db) → OneEach db.payments → HasWritten f db db' → OneEach db'.payments
HasWritten-OneEach f db db' single (t, legal, (now, r, hit, new)) id =
    rw new (rw (update_rows-OneEach f.payment_id f.seen.version t now db.payments id) (single id))

load-Knows :
    (f : Flight) (uuid now : ℕ) (db : Db)
    → (get_payment f.payment_id uuid now db).0 ≡ row f.seen
    → Knows db f
unfolding get_payment
load-Knows f uuid now db h =
    (f.seen, one-row (row_of f.payment_id db) f.seen h, omega arith, λ e. refl)

-- What holds of a system that has come from a database.
abbrev Tracked : ℕ → PaymentRow → System → Type 0
Tracked id p x = OneEach x.db.payments × All (Knows x.db) x.flights × CameFrom id p x.db x.committed

Step-Tracked : (id : ℕ) (p : PaymentRow) {x y : System} → Step x y → Tracked id p x → Tracked id p y
Step-Tracked id p (load {db} f uuid now seen) (single, knows, came) =
    (single, (load-Knows f uuid now db seen, knows), came)
Step-Tracked id p (finish {db} {done} before after f env bucket tick r h) (single, knows, came) =
    let w : World = record { db = db; bucket = bucket; tick = tick } in
    let wrote = rest_of-HasWritten f env w r h in
    let split = All-remove (Knows db) before after f knows in
    (
      HasWritten-OneEach f db (rest_of f env w).1.db single wrote,
      All-map (λ g. Knows-written f g db (rest_of f env w).1.db single wrote) (before ++ after)
          split.1,
      CameFrom-written id p f db (rest_of f env w).1.db done single wrote split.0 came,
    )
Step-Tracked id p (roll_back {db} before after f) (single, knows, came) =
    (single, (All-remove (Knows db) before after f knows).1, came)

Steps-Tracked :
    (id : ℕ) (p : PaymentRow) {x y : System} → Steps x y → Tracked id p x → Tracked id p y
Steps-Tracked id p still h = h
Steps-Tracked id p (steps before step) h = Step-Tracked id p step (Steps-Tracked id p before h)

-- However the transactions of the payment requests overlap, and whichever of them roll back, the row
-- of a payment stays, and what the committed ones did to it, in the order of their commits, are deeds
-- that validatePaymentTransition accepts one after the other, from the status at the start to the
-- present one; the version has grown by their number. The ids of the payments are distinct.
pub concurrent-History :
    (id : ℕ) (p : PaymentRow) (db : Db) {y : System}
    → ((i : ℕ) → count_rows (λ r. r.id == i) db.payments ≤ 1)
    → find (λ r. r.id == id) db.payments ≡ some p
    → Steps (record { db = db; flights = []; committed = [] }) y
    → (q : PaymentRow) × (find (λ r. r.id == id) y.db.payments ≡ some q)
      × History p.status (deeds_on id y.committed) q.status
      × (q.version ≡ p.version + length (deeds_on id y.committed))
unfolding deeds_on
concurrent-History id p db single found run =
    (Steps-Tracked id p run (single, tt, (p, found, nothing, omega arith))).2
