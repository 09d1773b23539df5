-- ===== src/Services/Frame.antt =====
-- Properties of the database that a request cannot touch: the frame of a query, and the steps of a
-- request that stay within it.
pub mod Expenses
pub mod Accounts
pub mod Proofs
use Prim.Native.String.{String}
use expense_splitter.Prelude.{ℕ, ◌≡◌, Bool, List, arith}
use expense_splitter.Types.ApiError.{ApiError, Result, new_server_error}
use expense_splitter.Store.{AuditValue, Db}
use expense_splitter.Store.Action.{
  Reply, row, no_rows, failed, Query, Action, pure, run, try_run, raise_if, raise_unless, lift,
  for_each, in_tx,
}
use expense_splitter.Store.Hoare.{
  Pred, Replies, MayReply, Triple, Triple-pure, Triple-lift, Triple-map, Triple-run, Triple-try_run,
  Triple-raise_if, Triple-raise_unless, Triple-in_tx, Triple-for_each,
}
use expense_splitter.Store.Users.{
  update_user, set_user_verification, link_user_keycloak_id, create_user, delete_user,
}
use expense_splitter.Store.Expenses.{create_expense, create_expense_share, update_expense}
use expense_splitter.Store.Nudges.{insert_or_renew, upsert_nudge}
use expense_splitter.Store.Settlement.{create_settlement_run, create_proof}
use expense_splitter.Store.Audit.{create_audit_entry, write_audit, write_system_audit}

abbrev pub Anywhere : Pred
Anywhere db = Unit

abbrev pub anywhere : (P : Pred) (db : Db) → P db → Anywhere db
anywhere P db p = tt

abbrev pub stays : (P : Pred) (db : Db) → P db → P db
stays P db p = p

-- What a query may change, as a relation of the databases before and after, and the properties that
-- do not depend on it.
abbrev pub Frame : Type 1
Frame = Db → Db → Type 0

abbrev pub Within : {A : Type 0} → Frame → Query A → Type 0
Within R q = (id now : ℕ) (db : Db) → R db (q id now db).1

abbrev pub Stable : Frame → Pred → Type 0
Stable R P = (db db' : Db) → R db db' → P db → P db'

-- The groups, the memberships and the payments stay.
abbrev pub Steady : Frame
Steady db db' =
    (db'.groups ≡ db.groups) × (db'.memberships ≡ db.memberships) × (db'.payments ≡ db.payments)

pub create_audit_entry-Steady : (e : _) → Within Steady (create_audit_entry e)
unfolding create_audit_entry
create_audit_entry-Steady e id now db = ground arith

pub create_expense-Steady :
    (g m : ℕ) (a : _) (c : _) (d : _) (o : ℕ) (s : _) → Within Steady (create_expense g m a c d o s)
unfolding create_expense
create_expense-Steady g m a c d o s id now db = ground arith

pub create_expense_share-Steady : (e u : ℕ) (w : _) → Within Steady (create_expense_share e u w)
unfolding create_expense_share
create_expense_share-Steady e u w id now db = ground arith

pub update_expense-Steady :
    (a : _) (c : _) (d : _) (o e : ℕ) → Within Steady (update_expense a c d o e)
unfolding update_expense
update_expense-Steady a c d o e id now db = ground arith

pub update_user-Steady : (u : ℕ) (f : _) → Within Steady (update_user u f)
unfolding update_user
update_user-Steady u f id now db = ground arith

pub set_user_verification-Steady : (s : _) (v u : ℕ) → Within Steady (set_user_verification s v u)
unfolding set_user_verification
set_user_verification-Steady s v u id now db = grind (arith, update_user-Steady)

pub link_user_keycloak_id-Steady :
    (same : _) (subject : ℕ) (email : _) → Within Steady (link_user_keycloak_id same subject email)
unfolding link_user_keycloak_id
link_user_keycloak_id-Steady same subject email id now db = ground arith

pub create_user-Steady :
    (same : _) (subject : ℕ) (email : _) → Within Steady (create_user same subject email)
unfolding create_user
create_user-Steady same subject email id now db = ground arith

pub delete_user-Steady : (user_id : ℕ) → Within Steady (delete_user user_id)
unfolding delete_user
delete_user-Steady user_id id now db = ground arith

pub upsert_nudge-Steady : (p r : ℕ) (t : _) (h : ℕ) → Within Steady (upsert_nudge p r t h)
unfolding upsert_nudge insert_or_renew
upsert_nudge-Steady p r t h id now db = ground arith

pub create_proof-Steady : (params : _) → Within Steady (create_proof params)
unfolding create_proof
create_proof-Steady params id now db = ground arith

pub create_settlement_run-Steady : (g c : ℕ) (s : _) → Within Steady (create_settlement_run g c s)
unfolding create_settlement_run
create_settlement_run-Steady g c s id now db = ground arith

module _ {R : Frame} {P : Pred} (stable : Stable R P) {E : Pred}
    (pe : (db : Db) → P db → E db) where
  Replies-Stable :
      {A : Type 0} (db : Db) (r : Reply A) (db' : Db) → R db db' → P db → Replies (λ a. P) (r, db')
  Replies-Stable db (row a) db' same h = stable db db' same h
  Replies-Stable db no_rows db' same h = tt
  Replies-Stable db failed db' same h = tt

  MayReply-Stable :
      {A : Type 0} (db : Db) (r : Reply A) (db' : Db)
      → R db db'
      → P db
      → MayReply (λ a. P) db (r, db')
  MayReply-Stable db (row a) db' same h = stable db db' same h
  MayReply-Stable db no_rows db' same h = h
  MayReply-Stable db failed db' same h = tt

  pub run-Stable :
      {A : Type 0} (q : Query A) (e : ApiError) → Within R q → Triple P (run q e) (λ a. P) E
  run-Stable q e h =
      Triple-run q e pe
        λ id now db p. Replies-Stable db (q id now db).0 (q id now db).1 (h id now db) p

  pub try_run-Stable : {A : Type 0} (q : Query A) → Within R q → Triple P (try_run q) (λ a. P) E
  try_run-Stable q h =
      Triple-try_run q pe
        λ id now db p. MayReply-Stable db (q id now db).0 (q id now db).1 (h id now db) p

module _ {P : Pred} (stable : Stable Steady P) {E : Pred} (pe : (db : Db) → P db → E db) where
  pub write_audit-Stable :
      (group_id actor : ℕ) (action : String) (before after : AuditValue)
      → Triple P (write_audit group_id actor action before after) (λ u. P) E
  unfolding write_audit
  write_audit-Stable group_id actor action before after =
      run-Stable stable pe (create_audit_entry _) new_server_error (create_audit_entry-Steady _)

  pub write_system_audit-Stable :
      (actor : ℕ) (action : String) (before : AuditValue)
      → Triple P (write_system_audit actor action before) (λ u. P) E
  unfolding write_system_audit
  write_system_audit-Stable actor action before =
      run-Stable stable pe (create_audit_entry _) new_server_error (create_audit_entry-Steady _)

module _ {P E : Pred} (pe : (db : Db) → P db → E db) where
  pub unless-Keeps : (b : Bool) (e : ApiError) → Triple P (raise_unless b e) (λ u. P) E
  unless-Keeps b e = Triple-map (λ db p. p) (λ a db p. p.0) (Triple-raise_unless pe b e)

  pub if-Keeps : (b : Bool) (e : ApiError) → Triple P (raise_if b e) (λ u. P) E
  if-Keeps b e = Triple-map (λ db p. p) (λ a db p. p.0) (Triple-raise_if pe b e)

  pub lift-Keeps : {A : Type 0} (r : Result A) → Triple P (lift r) (λ a. P) E
  lift-Keeps r = Triple-map (λ db p. p) (λ a db p. p.0) (Triple-lift pe r)

module _ {P : Pred} where
  pub done-Keeps : {A : Type 0} {E : Pred} (a : A) → Triple P (pure a) (λ a. P) E
  done-Keeps a = Triple-pure a (λ db p. p)

  pub for_each-Keeps :
      {A : Type 0} {E : Pred} {f : A → Action (Unit {0})}
      → ((x : A) → Triple P (f x) (λ u. P) E)
      → (xs : List A) → Triple P (for_each xs f) (λ u. P) E
  for_each-Keeps h xs = Triple-for_each (λ ys. P) (λ x ys. h x) xs

  pub tx-Keeps :
      {A : Type 0} {m : Action A} → Triple P m (λ a. P) Anywhere → Triple P (in_tx m) (λ a. P) P
  tx-Keeps h = Triple-in_tx (λ db p. p) h
