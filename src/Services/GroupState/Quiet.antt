-- ===== src/Services/GroupState/Quiet.antt =====
-- The queries that touch neither the groups nor the payments, and the requests made of them.
use expense_splitter.Prelude.{ℕ, ◌≡◌, Bool, List, arith}
use Prim.Native.String.{String}
use expense_splitter.Types.ApiError.{ApiError, Result, new_server_error}
use expense_splitter.Store.{GroupRow, PaymentRow, AuditValue, Db}
use expense_splitter.Store.Action.{
  try_run, Reply, row, no_rows, failed, Query, Action, pure, run, raise_if, raise_unless, lift,
  for_each, in_tx,
}
use expense_splitter.Store.Hoare.{
  Pred, Replies, MayReply, Triple-try_run, Triple, Triple-pure, Triple-lift, Triple-map, Triple-run,
  Triple-raise_if, Triple-raise_unless, Triple-in_tx, Triple-for_each,
}
use expense_splitter.Services.Frame.{Stable, Steady}
use expense_splitter.Store.Memberships.{
  create_join_request, decide_join_request, demote_group_admin, promote_to_group_admin,
  delete_membership,
}
use expense_splitter.Store.Settlement.{create_settlement_run}
use expense_splitter.Store.Audit.{create_audit_entry, write_audit}

-- The groups and the payments stay.
abbrev pub Same : Db → Db → Type 0
Same db db' = (db'.groups ≡ db.groups) × (db'.payments ≡ db.payments)

abbrev pub Quiet : {A : Type 0} → Query A → Type 0
Quiet q = (id now : ℕ) (db : Db) → Same db (q id now db).1

pub create_audit_entry-Quiet : (e : _) → Quiet (create_audit_entry e)
unfolding create_audit_entry
create_audit_entry-Quiet e id now db = ground arith

pub create_join_request-Quiet : (g u : ℕ) → Quiet (create_join_request g u)
unfolding create_join_request
create_join_request-Quiet g u id now db = ground arith

pub decide_join_request-Quiet : (s : _) (g u : ℕ) → Quiet (decide_join_request s g u)
unfolding decide_join_request
decide_join_request-Quiet s g u id now db = ground arith

pub demote_group_admin-Quiet : (g : ℕ) → Quiet (demote_group_admin g)
unfolding demote_group_admin
demote_group_admin-Quiet g id now db = ground arith

pub promote_to_group_admin-Quiet : (g u : ℕ) → Quiet (promote_to_group_admin g u)
unfolding promote_to_group_admin
promote_to_group_admin-Quiet g u id now db = ground arith

pub delete_membership-Quiet : (m : ℕ) → Quiet (delete_membership m)
unfolding delete_membership
delete_membership-Quiet m id now db = ground arith

pub create_settlement_run-Quiet : (g c : ℕ) (s : _) → Quiet (create_settlement_run g c s)
unfolding create_settlement_run
create_settlement_run-Quiet g c s id now db = ground arith

-- The predicates of the groups and the payments alone.
abbrev pub On : (List GroupRow → List PaymentRow → Type 0) → Pred
On K db = K db.groups db.payments

abbrev pub Top : Pred
Top db = Unit

module _ (K : List GroupRow → List PaymentRow → Type 0) where
  On-Same : (db db' : Db) → Same db db' → On K db → On K db'
  On-Same db db' same h = rw (same.0, same.1) h

  Replies-Same :
      {A : Type 0} (db : Db) (r : Reply A) (db' : Db)
      → Same db db'
      → On K db
      → Replies (λ a. On K) (r, db')
  Replies-Same db (row a) db' same h = On-Same db db' same h
  Replies-Same db no_rows db' same h = tt
  Replies-Same db failed db' same h = tt

  module _ {E : Pred} (pe : (db : Db) → On K db → E db) where
    pub run-Same :
        {A : Type 0} (q : Query A) (e : ApiError) → Quiet q → Triple (On K) (run q e) (λ a. On K) E
    run-Same q e h =
        Triple-run q e pe
          λ id now db p. Replies-Same db (q id now db).0 (q id now db).1 (h id now db) p

    MayReply-Same :
        {A : Type 0} (db : Db) (r : Reply A) (db' : Db)
        → Same db db'
        → On K db
        → MayReply (λ a. On K) db (r, db')
    MayReply-Same db (row a) db' same h = On-Same db db' same h
    MayReply-Same db no_rows db' same h = h
    MayReply-Same db failed db' same h = tt

    pub try_run-Same :
        {A : Type 0} (q : Query A) → Quiet q → Triple (On K) (try_run q) (λ a. On K) E
    try_run-Same q h =
        Triple-try_run q pe
          λ id now db p. MayReply-Same db (q id now db).0 (q id now db).1 (h id now db) p

    pub write_audit-Same :
        (group_id actor : ℕ) (action : String) (before after : AuditValue)
        → Triple (On K) (write_audit group_id actor action before after) (λ u. On K) E
    unfolding write_audit
    write_audit-Same group_id actor action before after =
        run-Same (create_audit_entry _) new_server_error (create_audit_entry-Quiet _)

    pub unless-Same : (b : Bool) (e : ApiError) → Triple (On K) (raise_unless b e) (λ u. On K) E
    unless-Same b e = Triple-map (λ db p. p) (λ a db p. p.0) (Triple-raise_unless pe b e)

    pub if-Same : (b : Bool) (e : ApiError) → Triple (On K) (raise_if b e) (λ u. On K) E
    if-Same b e = Triple-map (λ db p. p) (λ a db p. p.0) (Triple-raise_if pe b e)

    pub lift-Same : {A : Type 0} (r : Result A) → Triple (On K) (lift r) (λ a. On K) E
    lift-Same r = Triple-map (λ db p. p) (λ a db p. p.0) (Triple-lift pe r)

    pub for_each-Same :
        {A : Type 0} {f : A → Action (Unit {0})}
        → ((x : A) → Triple (On K) (f x) (λ u. On K) E)
        → (xs : List A) → Triple (On K) (for_each xs f) (λ u. On K) E
    for_each-Same h xs = Triple-for_each (λ ys. On K) (λ x ys. h x) xs

  pub On-Stable : Stable Steady (On K)
  On-Stable db db' same h = On-Same db db' (same.0, same.2) h

  pub done-Same : {A : Type 0} {E : Pred} (a : A) → Triple (On K) (pure a) (λ a. On K) E
  done-Same a = Triple-pure a (λ db p. p)

  pub tx-Same :
      {A : Type 0} {m : Action A}
      → Triple (On K) m (λ a. On K) Top
      → Triple (On K) (in_tx m) (λ a. On K) (On K)
  tx-Same h = Triple-in_tx (λ db p. p) h
