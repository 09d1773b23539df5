-- ===== src/Store/Hoare.antt =====
-- Reasoning about requests: what holds of the database after a request, with a value and with an
-- error, by what holds before.
use expense_splitter.Prelude.{
  ℕ, ◌+◌, ◌≡◌, sym, refl, Bool, true, false, Option, none, some, List, [], ◌∷◌, Bool-cases, inl,
  inr, if◌then◌else◌,
}
use expense_splitter.Types.ApiError.{ApiError, Result, ok, err}
use expense_splitter.Store.{Db}
use expense_splitter.Store.Action.{
  Env, World, Reply, row, no_rows, failed, Query, Action, pure, lift, or_raise, after, answer,
  commit, try_run, in_tx, ◌>>=◌, run, raise_unless, raise_if, for_each, asks,
}

-- A property of the database.
abbrev pub Pred : Type 1
Pred = Db → Type 0

-- `Q` after a value, `E` after an error.
abbrev pub Holds : {A : Type 0} → (A → Pred) → Pred → Result A × World → Type 0
Holds Q E (ok a, w) = Q a w.db
Holds Q E (err e, w) = E w.db

pub record Triple {A : Type 0} (P : Pred) (m : Action A) (Q : A → Pred) (E : Pred) : Type 0 where
  pub holds : (env : Env) (w : World) → P w.db → Holds Q E (m env w)

-- What a query that answers a row leaves.
abbrev pub Replies : {A : Type 0} → (A → Pred) → Reply A × Db → Type 0
Replies Q (row a, db) = Q a db
Replies Q (no_rows, db) = Unit
Replies Q (failed, db) = Unit

-- The same for a query that may find no row.
abbrev pub MayReply : {A : Type 0} → (Option A → Pred) → Db → Reply A × Db → Type 0
MayReply Q db (row a, db') = Q (some a) db'
MayReply Q db (no_rows, db') = Q none db
MayReply Q db (failed, db') = Unit

pub Triple-pure :
    {A : Type 0} {P E : Pred} {Q : A → Pred} (a : A)
    → ((db : Db) → P db → Q a db)
    → Triple P (pure a) Q E
Triple-pure a h = record { holds = λ env w p. h w.db p }

Holds-Unit :
    {A : Type 0} (r : Result A) (w : World) → Holds (λ a db. Unit {0}) (λ db. Unit {0}) (r, w)
Holds-Unit (ok a) w = tt
Holds-Unit (err e) w = tt

pub Triple-trivial :
    {A : Type 0} {P : Pred} (m : Action A) → Triple P m (λ a db. Unit {0}) (λ db. Unit {0})
Triple-trivial m = record { holds = λ env w p. Holds-Unit (m env w).0 (m env w).1 }

module _ {P E : Pred} (pe : (db : Db) → P db → E db) where
  pub Triple-lift : {A : Type 0} (r : Result A) → Triple P (lift r) (λ a db. P db × (r ≡ ok a)) E
  Triple-lift (ok a) = record { holds = λ env w p. (p, refl) }
  Triple-lift (err e) = record { holds = λ env w p. pe w.db p }

  pub Triple-raise_unless :
      (b : Bool) (e : ApiError) → Triple P (raise_unless b e) (λ u db. P db × (b ≡ true)) E
  Triple-raise_unless true e = record { holds = λ env w p. (p, refl) }
  Triple-raise_unless false e = record { holds = λ env w p. pe w.db p }

  pub Triple-raise_if :
      (b : Bool) (e : ApiError) → Triple P (raise_if b e) (λ u db. P db × (b ≡ false)) E
  Triple-raise_if true e = record { holds = λ env w p. pe w.db p }
  Triple-raise_if false e = record { holds = λ env w p. (p, refl) }

  pub Triple-or_raise :
      {A : Type 0} (e : ApiError) (o : Option A)
      → Triple P (or_raise e o) (λ a db. P db × (o ≡ some a)) E
  Triple-or_raise e none = record { holds = λ env w p. pe w.db p }
  Triple-or_raise e (some a) = record { holds = λ env w p. (p, refl) }

Holds-after :
    {A B : Type 0} (Q : A → Pred) (R : B → Pred) (E : Pred) (env : Env) (k : A → Action B)
    (r : Result A) (w : World)
    → Holds Q E (r, w)
    → ((a : A) → Triple (Q a) (k a) R E)
    → Holds R E (after env k r w)
Holds-after Q R E env k (ok a) w h hk = (hk a).holds env w h
Holds-after Q R E env k (err e) w h hk = h

pub Triple-bind :
    {A B : Type 0} {P E : Pred} {Q : A → Pred} {R : B → Pred} {m : Action A} {k : A → Action B}
    → Triple P m Q E
    → ((a : A) → Triple (Q a) (k a) R E)
    → Triple P (m >>= k) R E
unfolding ◌>>=◌
Triple-bind {E} {Q} {R} {m} {k} hm hk = record {
  holds = λ env w p. Holds-after Q R E env k (m env w).0 (m env w).1 (hm.holds env w p) hk;
}

-- A weaker postcondition, and a stronger precondition.
Holds-map :
    {A : Type 0} (Q R : A → Pred) (E : Pred) (r : Result A) (w : World)
    → ((a : A) (db : Db) → Q a db → R a db)
    → Holds Q E (r, w)
    → Holds R E (r, w)
Holds-map Q R E (ok a) w f h = f a w.db h
Holds-map Q R E (err e) w f h = h

pub Triple-map :
    {A : Type 0} {P P' E : Pred} {Q R : A → Pred} {m : Action A}
    → ((db : Db) → P' db → P db)
    → ((a : A) (db : Db) → Q a db → R a db)
    → Triple P m Q E
    → Triple P' m R E
Triple-map {E} {Q} {R} {m} g f hm = record {
  holds = λ env w p. Holds-map Q R E (m env w).0 (m env w).1 f (hm.holds env w (g w.db p));
}

Holds-answer :
    {A : Type 0} (E : Pred) (Q : Option A → Pred) (r : Reply A) (db' : Db) (w : World)
    → E w.db
    → MayReply Q w.db (r, db')
    → Holds Q E (answer r db' w)
Holds-answer E Q (row a) db' w e h = h
Holds-answer E Q no_rows db' w e h = h
Holds-answer E Q failed db' w e h = e

module _ {A : Type 0} {P E : Pred} where
  pub Triple-try_run :
      {Q : Option A → Pred} (q : Query A)
      → ((db : Db) → P db → E db)
      → ((id now : ℕ) (db : Db) → P db → MayReply Q db (q id now db))
      → Triple P (try_run q) Q E
  unfolding try_run
  Triple-try_run {Q} q pe h = record {
    holds = λ env w p. elim (Bool-cases (env.fails w.tick)) [
      | inl fails ↦ rw fails (pe w.db p)
      | inr works ↦ rw works (
          Holds-answer E Q (q (env.fresh w.tick) env.now w.db).0
            (q (env.fresh w.tick) env.now w.db).1 w (pe w.db p)
            (h (env.fresh w.tick) env.now w.db p))
    ];
  }

abbrev FoundOr : {A : Type 0} → (A → Pred) → Pred → Option A → Pred
FoundOr Q F none = F
FoundOr Q F (some a) = Q a

MayReply-Replies :
    {A : Type 0} (E : Pred) (Q : A → Pred) (r : Reply A) (db db' : Db)
    → E db
    → Replies Q (r, db')
    → MayReply (FoundOr Q E) db (r, db')
MayReply-Replies E Q (row a) db db' e h = h
MayReply-Replies E Q no_rows db db' e h = e
MayReply-Replies E Q failed db db' e h = tt

Triple-FoundOr :
    {A : Type 0} (E : Pred) (Q : A → Pred) (e : ApiError) (o : Option A)
    → Triple (FoundOr Q E o) (or_raise e o) Q E
Triple-FoundOr E Q e none = record { holds = λ env w p. p }
Triple-FoundOr E Q e (some a) = record { holds = λ env w p. p }

module _ {A : Type 0} {P E : Pred} where
  pub Triple-run :
      {Q : A → Pred} (q : Query A) (e : ApiError)
      → ((db : Db) → P db → E db)
      → ((id now : ℕ) (db : Db) → P db → Replies Q (q id now db))
      → Triple P (run q e) Q E
  Triple-run {Q} q e pe h =
      Triple-bind
        (Triple-try_run q pe λ id now db p.
          MayReply-Replies E Q (q id now db).0 db (q id now db).1 (pe db p) (h id now db p))
        (Triple-FoundOr E Q e)

Holds-commit :
    {A : Type 0} (E F : Pred) (Q : A → Pred) (env : Env) (db : Db) (r : Result A) (w : World)
    → E db
    → Holds Q F (r, w)
    → Holds Q E (commit env db r w)
Holds-commit E F Q env db (ok a) w e h = elim (Bool-cases (env.fails w.tick)) [
  | inl fails ↦ rw fails e
  | inr works ↦ rw works h
]
Holds-commit E F Q env db (err x) w e h = e

-- Whatever an error leaves in the transaction, the rollback takes it back.
pub Triple-in_tx :
    {A : Type 0} {P E F : Pred} {Q : A → Pred} {m : Action A}
    → ((db : Db) → P db → E db)
    → Triple P m Q F
    → Triple P (in_tx m) Q E
unfolding in_tx
Triple-in_tx {E} {F} {Q} {m} pe hm = record {
  holds = λ env w p.
      let inner : World = record w { tick = w.tick + 1 } in
      elim (Bool-cases (env.fails w.tick)) [
        | inl fails ↦ rw fails (pe w.db p)
        | inr works ↦ rw works (
            Holds-commit E F Q env w.db (m env inner).0 (m env inner).1 (pe w.db p)
              (hm.holds env inner p))
      ];
}

pub Triple-asks :
    {A : Type 0} {P E : Pred} {Q : A → Pred} {f : Env → Action A}
    → ((env : Env) → Triple P (f env) Q E)
    → Triple P (asks f) Q E
Triple-asks h = record { holds = λ env w p. (h env).holds env w p }

pub Triple-for_each :
    {A : Type 0} {E : Pred} (R : List A → Pred) {f : A → Action (Unit {0})}
    → ((x : A) (xs : List A) → Triple (R (x ∷ xs)) (f x) (λ u. R xs) E)
    → (xs : List A) → Triple (R xs) (for_each xs f) (λ u. R []) E
unfolding for_each
Triple-for_each R h [] = record { holds = λ env w p. p }
Triple-for_each R h (x ∷ xs) = Triple-bind (h x xs) (λ u. Triple-for_each R h xs)

-- A query that changes nothing.
abbrev pub ReadsOnly : {A : Type 0} → Query A → Type 0
ReadsOnly q = (id now : ℕ) (db : Db) → (q id now db).1 ≡ db

module _ {A : Type 0} {P E : Pred} (pe : (db : Db) → P db → E db) where
  Replies-same : (db : Db) (r : Reply A) (db' : Db) → db' ≡ db → P db → Replies (λ a. P) (r, db')
  Replies-same db (row a) db' same p = rw same p
  Replies-same db no_rows db' same p = tt
  Replies-same db failed db' same p = tt

  MayReply-same :
      (db : Db) (r : Reply A) (db' : Db) → db' ≡ db → P db → MayReply (λ a. P) db (r, db')
  MayReply-same db (row a) db' same p = rw same p
  MayReply-same db no_rows db' same p = p
  MayReply-same db failed db' same p = tt

  pub Triple-read : (q : Query A) (e : ApiError) → ReadsOnly q → Triple P (run q e) (λ a. P) E
  Triple-read q e h =
      Triple-run q e pe
        λ id now db p. Replies-same db (q id now db).0 (q id now db).1 (h id now db) p

  pub Triple-try_read : (q : Query A) → ReadsOnly q → Triple P (try_run q) (λ a. P) E
  Triple-try_read q h =
      Triple-try_run q pe
        λ id now db p. MayReply-same db (q id now db).0 (q id now db).1 (h id now db) p

-- A fact of the precondition that is not about the database.
pub Triple-given :
    {A X : Type 0} {P E : Pred} {Q : A → Pred} {m : Action A}
    → (X → Triple P m Q E)
    → Triple (λ db. P db × X) m Q E
Triple-given h = record { holds = λ env w p. (h p.1).holds env w p.0 }

-- A write that is guarded by a constraint.
pub Replies-if :
    {A : Type 0} (Q : A → Pred) (b : Bool) (a : A) (db db' : Db)
    → (b ≡ true → Q a db')
    → Replies Q (if b then (row a, db') else (failed, db))
Replies-if Q true a db db' h = h refl
Replies-if Q false a db db' h = tt

-- An update of the row that was found: a row comes back only for an update that was made.
pub Replies-update :
    {A : Type 0} (Q : Pred) (o : Option A) (fits : A → Bool) (reply : A → A) (db db' : Db)
    → ((a : A) → o ≡ some a → Q db')
    → Replies {A = A}
        (λ a. Q)
        (elim o [
          | none ↦ (no_rows, db)
          | some a ↦ if fits a then (row (reply a), db') else (failed, db)
        ])
Replies-update Q none fits reply db db' h = tt
Replies-update Q (some a) fits reply db db' h = elim (Bool-cases (fits a)) [
  | inl fit ↦ rw fit (h a refl)
  | inr full ↦ rw full tt
]

-- What holds of the value that was returned.
pub Holds-ok :
    {A : Type 0} (Q : A → Pred) (E : Pred) (r : Result A) (w : World) (a : A)
    → Holds Q E (r, w)
    → r ≡ ok a
    → Q a w.db
Holds-ok Q E (ok b) w a h e = let same : b ≡ a = cc in rw (sym same) h
Holds-ok Q E (err x) w a h e = cc

Holds-weaken :
    {A : Type 0} (P E : Pred) (r : Result A) (w : World)
    → ((db : Db) → P db → E db)
    → Holds (λ a. P) P (r, w)
    → Holds (λ a. P) E (r, w)
Holds-weaken P E (ok a) w f h = h
Holds-weaken P E (err e) w f h = f w.db h

-- A request that leaves every property alone, with any property for its error.
pub Triple-read_only :
    {A : Type 0} {P E : Pred} {m : Action A}
    → Triple P m (λ a. P) P
    → ((db : Db) → P db → E db)
    → Triple P m (λ a. P) E
Triple-read_only {P} {E} {m} hm pe = record {
  holds = λ env w p. Holds-weaken P E (m env w).0 (m env w).1 pe (hm.holds env w p);
}
