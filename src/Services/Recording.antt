-- ===== src/Services/Recording.antt =====
-- What `RecordExpense` of services/expenses.go demands, and what it writes.
use expense_splitter.Prelude.{
  ℕ, ◌≡◌, ◌∙◌, sym, refl, true, false, ◌&&◌, Option, none, some, List, [], ◌∷◌, ◌++◌, All, ◌==◌,
  leb,
}
use Prim.Native.String.{String}
use expense_splitter.Prelude.Int32.{int32}
use expense_splitter.Types.ApiError.{ApiError, ok}
use expense_splitter.Types.Membership.{is_approved}
use expense_splitter.Types.Group.{is_open}
use expense_splitter.Types.Expense.{ShareInput, RecordExpenseRequest, split_type}
use expense_splitter.Store.{UserRow, GroupRow, MembershipRow, ExpenseRow, AuditValue, Db}
use expense_splitter.Store.Action.{Env, World, run, exec, raise_unless, for_each}
use expense_splitter.Store.Rows.{find, one, map_reply}
use expense_splitter.Store.Users.{same_key, get_user_by_keycloak_id}
use expense_splitter.Store.Groups.{date_of, LockGroupForExpenseRow, lock_group_for_expense}
use expense_splitter.Store.Memberships.{is_member, get_membership}
use expense_splitter.Store.Expenses.{create_expense, create_expense_share}
use expense_splitter.Store.Audit.{create_audit_entry, write_audit}
use expense_splitter.Store.Hoare.{
  Pred, Holds-ok, Replies, Replies-if, Triple, Triple-pure, Triple-bind, Triple-map, Triple-run,
  Triple-in_tx, Triple-given, Triple-raise_unless, Triple-for_each,
}
use expense_splitter.Services.Authz.{principal_by_keycloak_id}
use expense_splitter.Services.Expenses.{require_open_trip, require_participant, record_expense}
use expense_splitter.Services.GroupState.Settle.{Replies-one}

abbrev anything : Pred
anything db = Unit

-- The account of a subject.
abbrev pub IsAccount : Db → ℕ → ℕ → Type 0
IsAccount db subject user_id =
    (u : UserRow) × (find (λ v. same_key subject v.keycloak_id) db.users ≡ some u)
    × (u.id ≡ user_id)

-- An approved member of a group, with the id of the membership.
abbrev pub IsApprovedMember : Db → ℕ → ℕ → ℕ → Type 0
IsApprovedMember db group_id user_id membership_id =
    (m : MembershipRow) × (find (is_member group_id user_id) db.memberships ≡ some m)
    × (is_approved m.status ≡ true)
    × (m.id ≡ membership_id)

-- The group is open, and the day is one of the trip.
abbrev pub IsOpenOn : Db → ℕ → ℕ → Type 0
IsOpenOn db group_id day =
    (g : GroupRow) × (find (λ h. h.id == group_id) db.groups ≡ some g)
    × (is_open g.status ≡ true)
    × ((leb (date_of g.start_date) day && leb day (date_of g.end_date)) ≡ true)

module _ (db0 : Db) where
  -- Nothing has been written.
  abbrev Still : Pred
  Still db = db ≡ db0

  still : (db : Db) → Still db → anything db
  still db h = tt

  caller-IsAccount :
      (subject : ℕ) (e : ApiError)
      → Triple Still
          (principal_by_keycloak_id subject e)
          (λ p db. Still db × IsAccount db0 subject p.user_id)
          anything
  unfolding principal_by_keycloak_id get_user_by_keycloak_id
  caller-IsAccount subject e =
      Triple-bind
        (Triple-run
          {Q = λ u db. Still db × (find (λ v. same_key subject v.keycloak_id) db0.users ≡ some u)}
          (get_user_by_keycloak_id subject) e still
          λ id now db h.
            Replies-one
              (λ u db. Still db × (find (λ v. same_key subject v.keycloak_id) db0.users ≡ some u)) _
              db λ u found. (h, rw (sym h) found))
        (λ u. Triple-pure _ λ db h. (h.0, (u, h.1, refl)))

  membership-found :
      (group_id user_id : ℕ) (e : ApiError)
      → Triple Still
          (run (get_membership group_id user_id) e)
          (λ m db. Still db × (find (is_member group_id user_id) db0.memberships ≡ some m))
          anything
  unfolding get_membership
  membership-found group_id user_id e =
      Triple-run (get_membership group_id user_id) e still λ id now db h.
        Replies-one
          (λ m db. Still db × (find (is_member group_id user_id) db0.memberships ≡ some m)) _ db
          λ m found. (h, rw (sym h) found)

  approved-IsApprovedMember :
      (group_id user_id : ℕ) (m : MembershipRow) (e : ApiError)
      → find (is_member group_id user_id) db0.memberships ≡ some m
      → Triple Still
          (raise_unless (is_approved m.status) e)
          (λ u db. Still db × IsApprovedMember db0 group_id user_id m.id)
          anything
  approved-IsApprovedMember group_id user_id m e found =
      Triple-map (λ db h. h) (λ u db h. (h.0, (m, found, h.1, refl)))
        (Triple-raise_unless still (is_approved m.status) e)

  require_participant-IsApprovedMember :
      (group_id : ℕ) (s : ShareInput)
      → Triple Still
          (require_participant group_id s)
          (λ u db. Still db × ((id : ℕ) × IsApprovedMember db0 group_id s.user_id id))
          anything
  unfolding require_participant
  require_participant-IsApprovedMember group_id s =
      Triple-bind (membership-found group_id s.user_id _) λ m. Triple-given λ found.
        Triple-map (λ db h. h) (λ u db h. (h.0, (m.id, h.1)))
          (approved-IsApprovedMember group_id s.user_id m _ found)

  abbrev pub AllApproved : ℕ → List ShareInput → Type 0
  AllApproved group_id shares =
      All (λ s. (id : ℕ) × IsApprovedMember db0 group_id s.user_id id) shares

  participants-AllApproved :
      (group_id : ℕ) (shares : List ShareInput)
      → Triple Still
          (for_each shares (require_participant group_id))
          (λ u db. Still db × AllApproved group_id shares)
          anything
  participants-AllApproved group_id shares =
      Triple-map (λ db h. (h, λ all. all)) (λ u db h. (h.0, h.1 tt))
        (Triple-for_each
          (λ rest db. Still db × (AllApproved group_id rest → AllApproved group_id shares))
          (λ s rest. Triple-given λ k.
            Triple-map (λ db h. h) (λ u db h. (h.0, λ all. k (h.1, all)))
              (require_participant-IsApprovedMember group_id s))
          shares)

  -- What the lock has read of the group.
  abbrev IsTrip : ℕ → ℕ → LockGroupForExpenseRow → Type 0
  IsTrip group_id day r =
      (g : GroupRow) × (find (λ h. h.id == group_id) db0.groups ≡ some g)
      × (r.status ≡ g.status)
      × (r.in_range ≡ (leb (date_of g.start_date) day && leb day (date_of g.end_date)))

  abbrev trip_row : ℕ → GroupRow → LockGroupForExpenseRow
  trip_row day g = record {
    status = g.status;
    in_range = leb (date_of g.start_date) day && leb day (date_of g.end_date);
  }

  Replies-IsTrip :
      (group_id day : ℕ) (o : Option GroupRow) (db : Db)
      → Still db
      → find (λ h. h.id == group_id) db0.groups ≡ o
      → Replies (λ r db'. Still db' × IsTrip group_id day r) (map_reply (trip_row day) (one o), db)
  Replies-IsTrip group_id day none db h found = tt
  Replies-IsTrip group_id day (some g) db h found = (h, (g, found, refl, refl))

  require_open_trip-IsOpenOn :
      (group_id day : ℕ)
      → Triple Still
          (require_open_trip group_id day)
          (λ u db. Still db × IsOpenOn db0 group_id day)
          anything
  unfolding require_open_trip lock_group_for_expense
  require_open_trip-IsOpenOn group_id day =
      Triple-bind
        (Triple-run {Q = λ r db. Still db × IsTrip group_id day r}
          (lock_group_for_expense day group_id) _ still
          λ id now db h. Replies-IsTrip group_id day _ db h (rw h refl))
        λ r. Triple-given λ t. Triple-bind (Triple-raise_unless still (is_open r.status) _) λ u.
          Triple-given λ is_open_now.
            Triple-map (λ db h. h)
              (λ u db h. (h.0, (t.0, t.1, rw (sym t.2) is_open_now, sym t.3 ∙ h.1)))
              (Triple-raise_unless still r.in_range _)

  -- The row that a recorded expense adds.
  abbrev pub expense_of : ℕ → ℕ → ℕ → RecordExpenseRequest → ℕ → ExpenseRow
  expense_of id group_id paid_by req now = record {
    id = id;
    group_id = group_id;
    paid_by = paid_by;
    amount_baisa = req.amount_baisa;
    category = req.category;
    description = req.description;
    occurred_on = req.occurred_on;
    split_type = split_type req;
    deleted = false;
    created_at = now;
  }

  abbrev Added : ExpenseRow → Pred
  Added e db = db.expenses ≡ db0.expenses ++ (e ∷ [])

  abbrev AddedBy : ℕ → ℕ → RecordExpenseRequest → ℕ → Pred
  AddedBy group_id paid_by req id db = (now : ℕ) × Added (expense_of id group_id paid_by req now) db

  create_expense-Added :
      (group_id paid_by : ℕ) (req : RecordExpenseRequest)
      → Triple Still
          (exec (
            create_expense group_id paid_by req.amount_baisa req.category req.description
              req.occurred_on
              (split_type req)))
          (AddedBy group_id paid_by req)
          anything
  unfolding create_expense
  create_expense-Added group_id paid_by req =
      Triple-run {Q = AddedBy group_id paid_by req} _ _ still
        λ id now db h. Replies-if (AddedBy group_id paid_by req) _ id db _ λ valid. (now, rw h refl)

  create_expense_share-Added :
      (P : List ExpenseRow → Type 0) (e : ℕ) (s : ShareInput)
      → Triple
          (λ db. P db.expenses)
          (exec (create_expense_share e s.user_id (int32 s.weight)))
          (λ u db. P db.expenses)
          anything
  unfolding create_expense_share
  create_expense_share-Added P e s =
      Triple-run _ _ (λ db h. tt)
        λ id now db h. Replies-if (λ u db. P db.expenses) _ tt db _ λ valid. h

  write_audit-Added :
      (P : List ExpenseRow → Type 0) (g a : ℕ) (n : String) (b c : AuditValue)
      → Triple (λ db. P db.expenses) (write_audit g a n b c) (λ u db. P db.expenses) anything
  unfolding write_audit create_audit_entry
  write_audit-Added P g a n b c =
      Triple-run _ _ (λ db h. tt)
        λ id now db h. Replies-if (λ u db. P db.expenses) _ tt db _ λ valid. h

  -- What a recorded expense rests on, and what it adds.
  abbrev pub IsRecorded : ℕ → ℕ → RecordExpenseRequest → ℕ → Pred
  IsRecorded subject group_id req id db =
      (user_id membership_id : ℕ) × IsAccount db0 subject user_id
      × IsApprovedMember db0 group_id user_id membership_id
      × IsOpenOn db0 group_id req.occurred_on
      × AllApproved group_id req.shares
      × AddedBy group_id membership_id req id db

  record_expense-IsRecorded :
      (subject group_id : ℕ) (req : RecordExpenseRequest)
      → Triple Still
          (record_expense subject group_id req)
          (IsRecorded subject group_id req)
          anything
  unfolding record_expense
  record_expense-IsRecorded subject group_id req =
      Triple-bind (caller-IsAccount subject _) λ caller. Triple-given λ account.
        Triple-in_tx {F = anything} still (
          Triple-bind (require_open_trip-IsOpenOn group_id req.occurred_on) λ u.
            Triple-given λ on_day. Triple-bind (membership-found group_id caller.user_id _) λ m.
              Triple-given λ found.
                Triple-bind (approved-IsApprovedMember group_id caller.user_id m _ found) λ u.
                  Triple-given λ is_member_now.
                    Triple-bind (participants-AllApproved group_id req.shares) λ u.
                      Triple-given λ all. Triple-bind (create_expense-Added group_id m.id req) λ id.
                        let P : List ExpenseRow → Type 0 = λ expenses.
                          (now : ℕ) × (expenses
                            ≡ db0.expenses ++ (expense_of id group_id m.id req now ∷ [])) in
                        Triple-bind
                          (Triple-for_each (λ rest db. P db.expenses)
                            (λ s rest. create_expense_share-Added P id s) req.shares)
                          λ u. Triple-bind (write_audit-Added P _ _ _ _ _) λ u.
                            Triple-pure id λ db h.
                              (caller.user_id, m.id, account, is_member_now, on_day, all, h))

-- When RecordExpense returns the id of a new expense, the account is registered and an approved
-- member of the group, the group was open and the day one of the trip, every named participant was
-- an approved member, and the table has got exactly one new row, that of the request, paid by the
-- caller's own membership.
pub record_expense-Records :
    (subject group_id : ℕ) (req : RecordExpenseRequest) (env : Env) (w : World) (id : ℕ)
    → (record_expense subject group_id req env w).0 ≡ ok id
    → IsRecorded w.db subject group_id req id (record_expense subject group_id req env w).1.db
record_expense-Records subject group_id req env w id h =
    Holds-ok (IsRecorded w.db subject group_id req) anything
      (record_expense subject group_id req env w).0 (record_expense subject group_id req env w).1 id
      ((record_expense-IsRecorded w.db subject group_id req).holds env w refl) h
