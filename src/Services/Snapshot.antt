-- ===== src/Services/Snapshot.antt =====
-- The settlement run that `CloseGroup` of services/close.go stores, and what the rest of the
-- transaction leaves of it.
use Prim.Native.String.{String}
use expense_splitter.Prelude.Int.{ℤ}
use expense_splitter.Prelude.{
  ℕ, ◌≡◌, refl, ap, ◌∙◌, false, ◌||◌, some, List, [], ◌∷◌, ◌++◌, ◌==◌, arith,
}
use expense_splitter.Types.ApiError.{ApiError}
use expense_splitter.Settlement.Plan.{Transfer}
use expense_splitter.Store.{SettlementRunRow, SettlementSnapshot, AuditValue}
use expense_splitter.Store.Action.{row, pure, run, exec}
use expense_splitter.Store.Rows.{find, one, map_reply, exists_row}
use expense_splitter.Store.Hoare.{Pred, Replies-if, Triple, Triple-bind, Triple-run, Triple-trivial}
use expense_splitter.Store.Groups.{mark_group_settled}
use expense_splitter.Store.Settlement.{
  create_settlement_run, create_payment, get_settlement_snapshot,
}
use expense_splitter.Store.Audit.{create_audit_entry, write_audit}
use expense_splitter.Services.Close.{store_plan}
use expense_splitter.Services.Frame.{
  Frame, Stable, Within, Anywhere, anywhere, run-Stable, done-Keeps, for_each-Keeps,
}

-- The settlement runs stay.
abbrev KeepsRuns : Frame
KeepsRuns db db' = db'.settlement_runs ≡ db.settlement_runs

-- The snapshot of a group as a later request reads it.
abbrev pub HasSnapshot : ℕ → SettlementSnapshot → Pred
HasSnapshot id s db = (get_settlement_snapshot id 0 0 db).0 ≡ row s

HasSnapshot-Stable : (id : ℕ) (s : SettlementSnapshot) → Stable KeepsRuns (HasSnapshot id s)
unfolding get_settlement_snapshot
HasSnapshot-Stable id s db db' same h =
    ap (λ rs. map_reply (λ r. r.snapshot) (one (find (λ r. r.group_id == id) rs))) same ∙ h

find-new :
    (id : ℕ) (rs : List SettlementRunRow) (r : SettlementRunRow)
    → r.group_id ≡ id
    → exists_row (λ x. (x.id == r.id) || (x.group_id == id)) rs ≡ false
    → find (λ x. x.group_id == id) (rs ++ (r ∷ [])) ≡ some r
unfolding find exists_row
find-new id [] r same fresh = ground (arith, same)
find-new id (x ∷ rs) r same fresh = ground (arith, find-new id rs r same, fresh)

module _ (id : ℕ) (s : SettlementSnapshot) where
  run_keeps :
      {A : Type 0} (q : _) (e : ApiError)
      → Within {A = A} KeepsRuns q
      → Triple (HasSnapshot id s) (run q e) (λ a. HasSnapshot id s) Anywhere
  run_keeps q e h = run-Stable (HasSnapshot-Stable id s) (anywhere (HasSnapshot id s)) q e h

  run-create_settlement_run :
      (caller : ℕ) (e : ApiError)
      → Triple Anywhere
          (run (create_settlement_run id caller s) e)
          (λ run_id. HasSnapshot id s)
          Anywhere
  unfolding create_settlement_run get_settlement_snapshot
  run-create_settlement_run caller e = Triple-run _ e (anywhere Anywhere) λ uuid now db h.
      Replies-if (λ run_id. HasSnapshot id s) _ uuid db _
        λ valid.
          let r : SettlementRunRow = record {
            id = uuid;
            group_id = id;
            computed_by = caller;
            snapshot = s;
          } in
          ap (λ o. map_reply (λ x. x.snapshot) (one o))
            (find-new id db.settlement_runs r refl (ground (arith, valid)))

  finish-HasSnapshot :
      (plan : List Transfer)
      → Triple
          (HasSnapshot id s)
          (elim plan [ [] ↦ exec (mark_group_settled id) | _ ↦ pure tt ])
          (λ u. HasSnapshot id s)
          Anywhere
  unfolding mark_group_settled
  finish-HasSnapshot [] = run_keeps (mark_group_settled id) _ λ uuid now db. refl
  finish-HasSnapshot (t ∷ plan) = done-Keeps tt

  audit-HasSnapshot :
      (caller : ℕ) (action : String) (before after : AuditValue)
      → Triple
          (HasSnapshot id s)
          (write_audit id caller action before after)
          (λ u. HasSnapshot id s)
          Anywhere
  unfolding write_audit create_audit_entry
  audit-HasSnapshot caller action before after =
      run_keeps
        (create_audit_entry (record {
          group_id = some id;
          actor_user_id = caller;
          action = action;
          before = before;
          after = after;
        }))
        _ λ uuid now db. ground arith

  create_payment-KeepsRuns :
      (run_id from_user to_user : ℕ) (amount : ℤ)
      → Within KeepsRuns (create_payment run_id id from_user to_user amount)
  unfolding create_payment
  create_payment-KeepsRuns run_id from_user to_user amount uuid now db = ground arith

  pub store_plan-HasSnapshot :
      (caller : ℕ) (plan : List Transfer)
      → Triple Anywhere (store_plan caller id s plan) (λ u. HasSnapshot id s) Anywhere
  unfolding store_plan
  store_plan-HasSnapshot caller plan = Triple-bind {Q = λ u. Anywhere} (Triple-trivial _) λ u.
      Triple-bind (run-create_settlement_run caller _) λ run_id.
        Triple-bind
          (for_each-Keeps
            (λ t.
              run_keeps (create_payment run_id id t.from t.to t.amount) _
                (create_payment-KeepsRuns run_id t.from t.to t.amount))
            plan)
          λ u. Triple-bind (finish-HasSnapshot plan) λ u. audit-HasSnapshot caller _ _ _
