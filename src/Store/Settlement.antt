-- ===== src/Store/Settlement.antt =====
-- database/repo/settlement.sql.go, payments.sql.go and proofs.sql.go: the queries on the
-- settlement runs, the payments and the proofs, with the constraints of the tables.
use Prim.Native.String.{String}
use expense_splitter.Prelude.{
  ℕ, ◌+◌, ◌^◌, Bool, true, false, not, ◌&&◌, ◌||◌, Option, none, some, List, [], ◌∷◌, ◌++◌, ◌==◌,
  ltb, if◌then◌else◌,
}
use expense_splitter.Prelude.Int.{ℤ, pos, ltb_ℤ}
use expense_splitter.Types.Payment.{PaymentStatus, pending, is_settled}
use expense_splitter.Types.Proof.{ProofType, StorageKey}
use expense_splitter.Store.{SettlementRunRow, SettlementSnapshot, PaymentRow, ProofRow}
use expense_splitter.Store.Action.{row, no_rows, failed, Query, select}
use expense_splitter.Store.Memberships.{is_member}
use expense_splitter.Store.Rows.{
  find, one, exists_row, where_rows, count_rows, update_rows, order_by, map_reply,
}

-- A group has at most one run.
unfoldable pub create_settlement_run : ℕ → ℕ → SettlementSnapshot → Query ℕ
create_settlement_run group_id computed_by snapshot uuid now db =
    let r : SettlementRunRow = record {
      id = uuid;
      group_id = group_id;
      computed_by = computed_by;
      snapshot = snapshot;
    } in
    if not (exists_row (λ x. (x.id == uuid) || (x.group_id == group_id)) db.settlement_runs)
      && exists_row (λ g. g.id == group_id) db.groups
      && exists_row (λ u. u.id == computed_by) db.users
    then (row uuid, record db { settlement_runs = db.settlement_runs ++ (r ∷ []) })
    else (failed, db)

unfoldable pub get_settlement_snapshot : ℕ → Query SettlementSnapshot
get_settlement_snapshot group_id =
    select λ db.
      map_reply (λ r. r.snapshot) (one (find (λ r. r.group_id == group_id) db.settlement_runs))

-- The amount is positive, the two users differ, and both have memberships in the group.
unfoldable pub create_payment : ℕ → ℕ → ℕ → ℕ → ℤ → Query (Unit {0})
create_payment run_id group_id from_user to_user amount uuid now db =
    let p : PaymentRow = record {
      id = uuid;
      settlement_run_id = run_id;
      group_id = group_id;
      from_user_id = from_user;
      to_user_id = to_user;
      amount_baisa = amount;
      status = pending;
      version = 0;
      created_at = now;
      updated_at = now;
    } in
    if ltb_ℤ (pos 0) amount
      && not (from_user == to_user)
      && exists_row (λ r. r.id == run_id) db.settlement_runs
      && exists_row (is_member group_id from_user) db.memberships
      && exists_row (is_member group_id to_user) db.memberships
      && not (exists_row (λ x. x.id == uuid) db.payments)
    then (row tt, record db { payments = db.payments ++ (p ∷ []) })
    else (failed, db)

unfoldable pub list_payments : ℕ → Query (List PaymentRow)
list_payments group_id = select λ db. row (
    order_by
      (λ p q. ltb p.created_at q.created_at || (p.created_at == q.created_at) && ltb p.id q.id)
      (where_rows (λ p. p.group_id == group_id) db.payments))

unfoldable pub get_payment : ℕ → Query PaymentRow
get_payment id = select λ db. one (find (λ p. p.id == id) db.payments)

-- The version guards the update: no row comes back when another request was first. The column is
-- an `int`, and PostgreSQL refuses what it does not hold.
unfoldable pub transition_payment_row : PaymentStatus → ℕ → ℕ → Query PaymentRow
transition_payment_row status id version uuid now db =
    let test : PaymentRow → Bool = λ p. (p.id == id) && (p.version == version) in
    let set : PaymentRow → PaymentRow =
      λ p. record p { status = status; version = p.version + 1; updated_at = now } in
    elim (find test db.payments) [
      | none ↦ (no_rows, db)
      | some p ↦
          if ltb (p.version + 1) (2 ^ 31)
          then (row (set p), record db { payments = update_rows test set db.payments })
          else (failed, db)
    ]

abbrev pub is_unsettled : ℕ → PaymentRow → Bool
is_unsettled group_id p = (p.group_id == group_id) && not (is_settled p.status)

unfoldable pub count_unsettled_payments : ℕ → Query ℕ
count_unsettled_payments group_id =
    select λ db. row (count_rows (is_unsettled group_id) db.payments)

abbrev pub is_current_proof : ℕ → ProofRow → Bool
is_current_proof payment_id p = (p.payment_id == payment_id) && p.is_current

unfoldable pub unset_current_proof : ℕ → Query (Unit {0})
unset_current_proof payment_id uuid now db = (
  row tt,
  record db {
    proofs =
        update_rows (is_current_proof payment_id) (λ p. record p { is_current = false }) db.proofs;
  },
)

pub record CreateProofParams : Type 0 where
  pub payment_id : ℕ
  pub proof_type : ProofType
  pub sha256 : Option ℕ
  pub byte_size : Option ℕ
  pub note : Option String
  pub storage_key : Option StorageKey

-- The index `one_current_proof_per_payment` forbids a second current proof.
unfoldable pub create_proof : CreateProofParams → Query ℕ
create_proof params uuid now db =
    let p : ProofRow = record {
      id = uuid;
      payment_id = params.payment_id;
      proof_type = params.proof_type;
      sha256 = params.sha256;
      byte_size = params.byte_size;
      note = params.note;
      storage_key = params.storage_key;
      is_current = true;
      created_at = now;
    } in
    if not (exists_row (λ x. (x.id == uuid) || is_current_proof params.payment_id x) db.proofs)
      && exists_row (λ x. x.id == params.payment_id) db.payments
    then (row uuid, record db { proofs = db.proofs ++ (p ∷ []) })
    else (failed, db)

unfoldable pub get_current_proof : ℕ → Query ProofRow
get_current_proof payment_id = select λ db. one (find (is_current_proof payment_id) db.proofs)
