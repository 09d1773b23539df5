-- ===== src/Store/Nudges.antt =====
-- database/repo/nudges.sql.go: the queries on the notifications, with the constraints of the table.
use expense_splitter.Prelude.{
  ℕ, ◌+◌, ◌*◌, Bool, true, false, ◌&&◌, ◌||◌, Option, none, some, List, [], ◌∷◌, ◌++◌, ◌==◌, ltb,
  if◌then◌else◌,
}
use expense_splitter.Types.Payment.{PaymentStatus, pending, proof_submitted}
use expense_splitter.Types.Nudge.{NudgeType, nudge_debtor, nudge_creditor}
use expense_splitter.Store.{PaymentRow, NotificationRow, Db}
use expense_splitter.Store.Action.{Reply, row, no_rows, failed, Query}
use expense_splitter.Store.Rows.{find, exists_row, where_rows, update_rows, order_by}

-- `t < now() - make_interval(hours => hours)`
abbrev pub is_older : ℕ → ℕ → ℕ → Bool
is_older hours now t = ltb (t + hours * 3600) now

abbrev pub is_waiting : PaymentStatus → Bool
is_waiting pending = true
is_waiting proof_submitted = true
is_waiting _ = false

unfoldable pub list_stale_payments : ℕ → ℕ → Query (List PaymentRow)
list_stale_payments group_id hours uuid now db = (
  row (
      order_by
        (λ p q. ltb p.created_at q.created_at || (p.created_at == q.created_at) && ltb p.id q.id)
        (where_rows
          (λ p. (p.group_id == group_id) && is_waiting p.status && is_older hours now p.updated_at)
          db.payments)),
  db,
)

abbrev pub same_nudge_type : NudgeType → NudgeType → Bool
same_nudge_type nudge_debtor nudge_debtor = true
same_nudge_type nudge_creditor nudge_creditor = true
same_nudge_type _ _ = false

abbrev pub is_nudge : ℕ → ℕ → NudgeType → NotificationRow → Bool
is_nudge payment_id recipient type n =
    (n.payment_id == payment_id)
    && (n.recipient_user_id == recipient)
    && same_nudge_type n.nudge_type type

-- What `INSERT ... ON CONFLICT ... DO UPDATE ... WHERE` does with the reminder that is there.
unfoldable pub insert_or_renew :
    NotificationRow → ℕ → Db → Option NotificationRow → Reply (Unit {0}) × Db
insert_or_renew n hours db (some old) =
    let hit = is_nudge n.payment_id n.recipient_user_id n.nudge_type in
    if is_older hours n.last_sent_at old.last_sent_at
    then (
      row tt,
      record db {
        notifications =
            update_rows hit (λ x. record x { last_sent_at = n.last_sent_at }) db.notifications;
      },
    )
    else (no_rows, db)
insert_or_renew n hours db none =
    if exists_row (λ p. p.id == n.payment_id) db.payments
      && exists_row (λ u. u.id == n.recipient_user_id) db.users
    then (row tt, record db { notifications = db.notifications ++ (n ∷ []) })
    else (failed, db)

-- No row comes back while the last reminder is too recent.
unfoldable pub upsert_nudge : ℕ → ℕ → NudgeType → ℕ → Query (Unit {0})
upsert_nudge payment_id recipient type hours uuid now db =
    let n : NotificationRow = record {
      payment_id = payment_id;
      recipient_user_id = recipient;
      nudge_type = type;
      last_sent_at = now;
    } in
    insert_or_renew n hours db (find (is_nudge payment_id recipient type) db.notifications)
