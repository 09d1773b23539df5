-- ===== src/Tests/Concurrent.antt =====
-- Requests that overlap.
use expense_splitter.Prelude.{none, length, ◌+◌, ◌==◌, ◌≡◌, refl, some, [], ◌∷◌, arith}
use expense_splitter.Types.Nudge.{nudge_debtor}
use expense_splitter.Types.Payment.{proof_submitted, disputed}
use expense_splitter.Payment.{confirm, dispute, validate_payment_transition, audit_action_for}
use expense_splitter.Payment.TwoKeys.{History}
use expense_splitter.Store.{PaymentRow, Db}
use expense_splitter.Store.Action.{no_rows}
use expense_splitter.Store.Rows.{find, exists_row, update_rows, count_rows}
use expense_splitter.Store.Settlement.{
  get_payment, transition_payment_row, unset_current_proof, create_proof,
}
use expense_splitter.Store.Nudges.{insert_or_renew, upsert_nudge}
use expense_splitter.Services.Concurrent.{
  Work, text_work, plain_work, Flight, System, Steps, still, steps, load, finish, roll_back,
  rest_of, deeds_on, action_of, effect_of, concurrent-History,
}
use expense_splitter.Services.Authz.{principal_from_row}
use expense_splitter.Services.Payments.{store_text_proof, advance_payment}
use expense_splitter.Types.Membership.{member}
use expense_splitter.Store.Audit.{write_audit, create_audit_entry}
use expense_splitter.Store.Action.{try_run, ◌>>=◌}
use expense_splitter.Services.Reminders.{upsert_nudge-once}
use expense_splitter.Tests.Data.{user, membership, calm, with_payment, payment_in}

abbrev creditor_flight : Work → Flight
creditor_flight work = record {
  payment_id = 40;
  caller = principal_from_row (user 1 11);
  seen = payment_in proof_submitted;
  membership = none;
  work = work;
}

abbrev disputing : Flight
disputing = creditor_flight (plain_work dispute)

abbrev confirming : Flight
confirming = creditor_flight (plain_work confirm)

abbrev before : Db
before = with_payment proof_submitted

abbrev disputed_row : PaymentRow
disputed_row = record (payment_in disputed) { version = 4; updated_at = 50 }

abbrev submitted_row : PaymentRow
submitted_row = record (payment_in proof_submitted) { version = 5; updated_at = 50 }

-- The debtor's new proof, once the dispute is there.
abbrev proving : Flight
proving = record {
  payment_id = 40;
  caller = principal_from_row (user 2 12);
  seen = disputed_row;
  membership = some (membership 22 2 member);
  work = text_work "transfer 7";
}

abbrev after_dispute : Db
after_dispute = (rest_of disputing calm (record { db = before; bucket = 0; tick = 0 })).1.db

abbrev last : System
last = record {
  db = (rest_of proving calm (record { db = after_dispute; bucket = 0; tick = 9 })).1.db;
  flights = [];
  committed = disputing ∷ proving ∷ [];
}

-- Two requests of the creditor have read the payment. The dispute commits, the confirmation comes too
-- late, and the debtor proves the payment again.
overlap : Steps (record { db = before; flights = []; committed = [] }) last
unfolding get_payment advance_payment action_of effect_of store_text_proof unset_current_proof
    create_proof transition_payment_row validate_payment_transition write_audit create_audit_entry
    audit_action_for try_run ◌>>=◌ find exists_row update_rows
overlap =
    steps
      (steps
        (steps
          (steps (steps (steps still (load confirming 0 0 refl)) (load disputing 0 0 refl))
            (finish {db = before} [] (confirming ∷ []) disputing calm 0 0 disputed_row refl))
          (roll_back [] [] confirming))
        (load proving 0 0 refl))
      (finish {db = after_dispute} [] [] proving calm 0 9 submitted_row refl)

concurrent-History_example :
    (q : PaymentRow) × (find (λ r. r.id == 40) last.db.payments ≡ some q)
    × History proof_submitted (deeds_on 40 (disputing ∷ proving ∷ [])) q.status
    × (q.version ≡ 3 + length (deeds_on 40 (disputing ∷ proving ∷ [])))
unfolding find count_rows
concurrent-History_example =
    concurrent-History 40 (payment_in proof_submitted) before (λ i. ground arith) refl overlap

upsert_nudge-once_example :
    upsert_nudge 40 2 nudge_debtor 24 8 90000 (upsert_nudge 40 2 nudge_debtor 24 7 5000 before).1
    ≡ (no_rows, (upsert_nudge 40 2 nudge_debtor 24 7 5000 before).1)
unfolding upsert_nudge insert_or_renew find exists_row
upsert_nudge-once_example =
    upsert_nudge-once 40 2 nudge_debtor 24 7 5000 8 90000 before refl (omega arith)
