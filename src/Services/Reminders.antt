-- ===== src/Services/Reminders.antt =====
-- The reminders of services/nudges.go: no recipient is reminded of a payment twice in a period.
use expense_splitter.Prelude.{
  ℕ, ◌+◌, ◌*◌, ◌≡◌, ◌≤◌, refl, Bool, true, false, ◌&&◌, Option, none, some, Bool-cases, inl, inr,
  List, [], ◌∷◌, ◌++◌, ◌==◌, arith,
}
use expense_splitter.Types.Nudge.{NudgeType, nudge_debtor, nudge_creditor}
use expense_splitter.Store.{NotificationRow, Db}
use expense_splitter.Store.Action.{row, no_rows}
use expense_splitter.Store.Rows.{find, exists_row, update_rows}
use expense_splitter.Store.Nudges.{
  is_older, same_nudge_type, is_nudge, insert_or_renew, upsert_nudge,
}

same_nudge_type_refl : (t : NudgeType) → same_nudge_type t t ≡ true
same_nudge_type_refl nudge_debtor = refl
same_nudge_type_refl nudge_creditor = refl

module _ (payment recipient : ℕ) (type : NudgeType) where
  abbrev hit : NotificationRow → Bool
  hit = is_nudge payment recipient type

  find-stamp :
      (now : ℕ) (ns : List NotificationRow) (n : NotificationRow)
      → find hit ns ≡ some n
      → find hit (update_rows hit (λ x. record x { last_sent_at = now }) ns)
        ≡ some (record n { last_sent_at = now })
  unfolding find update_rows
  find-stamp now [] n h = ground arith
  find-stamp now (m ∷ ns) n h = ground (arith, find-stamp now ns n)

  find-new :
      (ns : List NotificationRow) (n : NotificationRow)
      → find hit ns ≡ none
      → hit n ≡ true
      → find hit (ns ++ (n ∷ [])) ≡ some n
  unfolding find
  find-new [] n h k = ground arith
  find-new (m ∷ ns) n h k = ground (arith, find-new ns n)

  abbrev stamp : ℕ → NotificationRow
  stamp now = record {
    payment_id = payment;
    recipient_user_id = recipient;
    nudge_type = type;
    last_sent_at = now;
  }

  -- The reminder in the table is at least as recent as `now`.
  too_soon :
      (hours uuid now now' : ℕ) (db : Db) (n : NotificationRow)
      → find hit db.notifications ≡ some n
      → n.last_sent_at ≡ now
      → now' ≤ now + hours * 3600
      → upsert_nudge payment recipient type hours uuid now' db ≡ (no_rows, db)
  unfolding upsert_nudge insert_or_renew
  too_soon hours uuid now now' db n h e soon =
      let recent : is_older hours now' n.last_sent_at ≡ false = ground (arith, e, soon) in
      let found : upsert_nudge payment recipient type hours uuid now' db
          ≡ insert_or_renew (stamp now') hours db (some n) =
        rw h refl in
      rw (found, recent) refl

  once :
      (hours uuid' now now' : ℕ) (db : Db) (o : Option NotificationRow)
      → find hit db.notifications ≡ o
      → (insert_or_renew (stamp now) hours db o).0 ≡ row tt
      → now' ≤ now + hours * 3600
      → upsert_nudge payment recipient type hours uuid' now'
          (insert_or_renew (stamp now) hours db o).1
        ≡ (no_rows, (insert_or_renew (stamp now) hours db o).1)
  unfolding insert_or_renew
  once hours uuid' now now' db (some old) h sent soon =
      elim (Bool-cases (is_older hours now old.last_sent_at)) [
        | inl older ↦
            rw older
              (too_soon hours uuid' now now' _ _ (find-stamp now db.notifications old h) refl soon)
        | inr recent ↦ ground (arith, sent, recent)
      ]
  once hours uuid' now now' db none h sent soon =
      elim (Bool-cases (
        exists_row (λ p. p.id == payment) db.payments
        && exists_row (λ u. u.id == recipient) db.users)) [
          | inl valid ↦ rw valid (
              too_soon hours uuid' now now' _ _
                (find-new db.notifications (stamp now) h
                  (ground (arith, same_nudge_type_refl type)))
                refl soon)
          | inr missing ↦ ground (arith, sent, missing)
        ]

  -- A reminder that UpsertNudge has sent is not sent again within the period: when the same reminder
  -- is asked for at most `hours` hours later, no row comes back and nothing changes.
  pub upsert_nudge-once :
      (hours uuid now uuid' now' : ℕ) (db : Db)
      → (upsert_nudge payment recipient type hours uuid now db).0 ≡ row tt
      → now' ≤ now + hours * 3600
      → upsert_nudge payment recipient type hours uuid' now'
          (upsert_nudge payment recipient type hours uuid now db).1
        ≡ (no_rows, (upsert_nudge payment recipient type hours uuid now db).1)
  unfolding upsert_nudge
  upsert_nudge-once hours uuid now uuid' now' db sent soon =
      once hours uuid' now now' db (find hit db.notifications) refl sent soon
