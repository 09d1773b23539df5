-- ===== src/Store/Action.antt =====
-- A request against the database: which calls fail, the ids that the database generates, and the
-- time are the environment's, for every possible environment.
use Prim.Native.String.{String}
use expense_splitter.Prelude.{
  ℕ, ◌+◌, Bool, true, false, Option, none, some, List, [], ◌∷◌, if◌then◌else◌,
}
use expense_splitter.Types.ApiError.{ApiError, Result, ok, err, new_server_error}
use expense_splitter.Types.Proof.{StorageKey}
use expense_splitter.Store.{Db}

-- `fails n`: the n-th call of the database fails (a lost connection, a timeout). `fresh n` is the
-- uuid that the n-th call generates. `now` is the time of the transaction. The rest stands for code
-- of others: the comparison of two `citext` values, the encoding of a string, SHA-256,
-- `http.DetectContentType`, whether an object store is configured, what the MinIO server answers to
-- a `PutObject` and a `GetObject` in each of its states, and the two uuids that a new group gets as
-- its tokens.
pub record Env : Type 0 where
  pub fails : ℕ → Bool
  pub fresh : ℕ → ℕ
  pub now : ℕ
  pub same_email : String → String → Bool
  pub bytes_of : String → List ℕ
  pub sha256 : List ℕ → ℕ
  pub detect_content_type : List ℕ → String
  pub store_enabled : Bool
  pub put_object : StorageKey → List ℕ → ℕ → Option ℕ
  pub get_object : StorageKey → ℕ → Option (List ℕ)
  pub invite_token : ℕ
  pub status_token : ℕ

-- The database, the state of the object store, and the number of calls made.
pub record World : Type 0 where
  pub db : Db
  pub bucket : ℕ
  pub tick : ℕ

-- What the database answers: a value, `pgx.ErrNoRows`, or another error (a constraint).
pub data Reply {ℓ} (A : Type ℓ) : Type ℓ where
  row : A → Reply A
  no_rows : Reply A
  failed : Reply A

-- A query gets the uuid and the time that its defaults would use.
abbrev pub Query {ℓ} : Type ℓ → Type ℓ
Query A = ℕ → ℕ → Db → Reply A × Db

abbrev pub Action {ℓ} : Type ℓ → Type ℓ
Action A = Env → World → Result A × World

infixl 5 ◌>>=◌ ◌>>◌
module _ {ℓ} {A : Type ℓ} where
  abbrev pub pure : A → Action A
  pure a env w = (ok a, w)

  abbrev pub raise : ApiError → Action A
  raise e env w = (err e, w)

  abbrev pub lift : Result A → Action A
  lift r env w = (r, w)

  abbrev pub or_raise : ApiError → Option A → Action A
  or_raise e none = raise e
  or_raise e (some a) = pure a

  abbrev pub select : (Db → Reply A) → Query A
  select f id now db = (f db, db)

  abbrev pub answer : Reply A → Db → World → Result (Option A) × World
  answer (row a) db' w = (ok (some a), record w { db = db'; tick = w.tick + 1 })
  answer no_rows db' w = (ok none, record w { tick = w.tick + 1 })
  answer failed db' w = (err new_server_error, record w { tick = w.tick + 1 })

  -- One call; without rows it answers `none`, and a failure is a server error.
  unfoldable pub try_run : Query A → Action (Option A)
  try_run q env w =
      let (r, db') = q (env.fresh w.tick) env.now w.db in
      if env.fails w.tick
      then (err new_server_error, record w { tick = w.tick + 1 })
      else answer r db' w

  abbrev pub commit : Env → Db → Result A → World → Result A × World
  commit env db (ok a) w =
      if env.fails w.tick
      then (err new_server_error, record w { db = db; tick = w.tick + 1 })
      else (ok a, record w { tick = w.tick + 1 })
  commit env db (err e) w = (err e, record w { db = db })

  -- `Begin`, the body and `Commit`; every other way out rolls back.
  unfoldable pub in_tx : Action A → Action A
  in_tx body env w =
      let (r, w') = body env (record w { tick = w.tick + 1 }) in
      if env.fails w.tick
      then (err new_server_error, record w { tick = w.tick + 1 })
      else commit env w.db r w'

module _ {ℓ κ} {A : Type ℓ} {B : Type κ} where
  abbrev pub after : Env → (A → Action B) → Result A → World → Result B × World
  after env f (ok a) w = f a env w
  after env f (err e) w = (err e, w)

  unfoldable pub ◌>>=◌ : Action A → (A → Action B) → Action B
  ◌>>=◌ m f env w = let (r, w') = m env w in after env f r w'

abbrev pub ◌>>◌ {ℓ κ} : {A : Type ℓ} {B : Type κ} → Action A → Action B → Action B
m >> k = m >>= λ _. k

-- A call whose lack of rows is an error of its own.
abbrev pub run {ℓ} : {A : Type ℓ} → Query A → ApiError → Action A
run q e = try_run q >>= or_raise e

-- A call whose every error is a server error.
abbrev pub exec {ℓ} : {A : Type ℓ} → Query A → Action A
exec q = run q new_server_error

abbrev pub raise_unless : Bool → ApiError → Action (Unit {0})
raise_unless true e = pure tt
raise_unless false e = raise e

abbrev pub raise_if : Bool → ApiError → Action (Unit {0})
raise_if true e = raise e
raise_if false e = pure tt

-- What depends on the environment.
abbrev pub asks {ℓ} : {A : Type ℓ} → (Env → Action A) → Action A
asks f env w = f env env w

-- `for _, x := range xs`, with a return on the first error.
unfoldable pub for_each {ℓ} : {A : Type ℓ} → List A → (A → Action (Unit {0})) → Action (Unit {0})
for_each [] f = pure tt
for_each (x ∷ xs) f = f x >> for_each xs f
