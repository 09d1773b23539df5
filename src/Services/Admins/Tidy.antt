-- ===== src/Services/Admins/Tidy.antt =====
-- The rules of the memberships under an insertion, an update and a deletion, and what the queries
-- answer.
use expense_splitter.Prelude.{
  ℕ, ◌+◌, ◌≡◌, ◌≤◌, refl, Bool, true, false, not, ◌&&◌, Option, none, some, List, [], ◌∷◌, ◌++◌,
  ◌==◌, if◌then◌else◌, Bool-cases, inl, inr, arith,
}
use expense_splitter.Types.Membership.{member, is_group_admin_role, is_approved}
use expense_splitter.Store.{MembershipRow, Db}
use expense_splitter.Store.Action.{row, no_rows, failed}
use expense_splitter.Store.Rows.{exists_row, count_rows, where_rows, update_rows}
use expense_splitter.Store.Hoare.{Pred, Replies}
use expense_splitter.Store.Memberships.{is_member, is_admin_of}
use expense_splitter.Services.GroupState.Rows.{count_rows-append, exists-count}
use expense_splitter.Services.Frame.{Stable, Steady}
use expense_splitter.Services.Admins.{admins, loose_admins, IsTidy, HasOneAdmin}
use expense_splitter.Services.Admins.Rows.{count_rows-same, count_rows-where_le}

pub steady : Stable Steady HasOneAdmin
steady db db' same p = rw (same.0, same.1) p

pub Replies-insert :
    {A : Type 0} (Q : A → Pred) (taken bad : Bool) (a : A) (db db' : Db)
    → (taken ≡ false → bad ≡ false → Q a db')
    → Replies Q (if taken then (no_rows, db) else if bad then (failed, db) else (row a, db'))
Replies-insert Q true bad a db db' h = tt
Replies-insert Q false true a db db' h = tt
Replies-insert Q false false a db db' h = h refl refl

pub Replies-found :
    {A B : Type 0} (Q : B → Pred) (o : Option A) (reply : A → B) (db db' : Db)
    → ((a : A) → o ≡ some a → Q (reply a) db')
    → Replies Q (elim o [ none ↦ (no_rows, db) | some a ↦ (row (reply a), db') ])
Replies-found Q none reply db db' h = tt
Replies-found Q (some a) reply db db' h = h a refl

pub Replies-blocked :
    {A : Type 0} (Q : A → Pred) (o : Option A) (full : Bool) (reply : A → A) (db db' : Db)
    → ((a : A) → o ≡ some a → Q (reply a) db')
    → Replies Q (elim o [
      | none ↦ (no_rows, db)
      | some a ↦ if full then (failed, db) else (row (reply a), db')
    ])
Replies-blocked Q none full reply db db' h = tt
Replies-blocked Q (some a) true reply db db' h = tt
Replies-blocked Q (some a) false reply db db' h = h a refl

pub Replies-delete :
    {A : Type 0} (Q : Pred) (o : Option A) (used : A → Bool) (db db' : Db)
    → Q db
    → Q db'
    → Replies {A = Unit {0}}
        (λ u. Q)
        (elim o [ none ↦ (row tt, db) | some a ↦ if used a then (failed, db) else (row tt, db') ])
Replies-delete Q none used db db' h k = h
Replies-delete Q (some a) used db db' h k = elim (Bool-cases (used a)) [
  | inl busy ↦ rw busy tt
  | inr free ↦ rw free k
]

-- A row that is new in its group and by its id, and an approved one if it is an admin's.
pub IsTidy-append :
    (ms : List MembershipRow) (m : MembershipRow)
    → (is_group_admin_role m.role && not (is_approved m.status)) ≡ false
    → exists_row (is_member m.group_id m.user_id) ms ≡ false
    → exists_row (λ n. n.id == m.id) ms ≡ false
    → IsTidy ms
    → IsTidy (ms ++ (m ∷ []))
unfolding count_rows
IsTidy-append ms m fits free new tidy = (
  (λ g. ground (
    arith,
    tidy.0 g,
    count_rows-append (λ n. is_admin_of g n && not (is_approved n.status)) ms (m ∷ []),
  )),
  (λ g u. ground (
    arith,
    tidy.1 g u,
    count_rows-append (is_member g u) ms (m ∷ []),
    exists-count (is_member m.group_id m.user_id) ms free,
  )),
  λ id. ground (
    arith,
    tidy.2 id,
    count_rows-append (λ n. n.id == id) ms (m ∷ []),
    exists-count (λ n. n.id == m.id) ms new,
  ),
)

pub admins-append :
    (g : ℕ) (ms : List MembershipRow) (m : MembershipRow)
    → admins g (ms ++ (m ∷ [])) ≡ admins g ms + (if is_admin_of g m then 1 else 0)
unfolding count_rows
admins-append g ms m = ground (arith, count_rows-append (is_admin_of g) ms (m ∷ []))

pub admins-member :
    (g : ℕ) (ms : List MembershipRow) (m : MembershipRow)
    → m.role ≡ member
    → admins g (ms ++ (m ∷ [])) ≡ admins g ms
admins-member g ms m plain = ground (arith, admins-append g ms m)

-- An update that keeps the ids, the groups and the users of the memberships.
pub IsTidy-update :
    (hit : MembershipRow → Bool) (f : MembershipRow → MembershipRow) (ms : List MembershipRow)
    → ((m : MembershipRow)
        → ((f m).id ≡ m.id) × ((f m).group_id ≡ m.group_id) × ((f m).user_id ≡ m.user_id))
    → ((g : ℕ) → loose_admins g (update_rows hit f ms) ≤ loose_admins g ms)
    → IsTidy ms
    → IsTidy (update_rows hit f ms)
IsTidy-update hit f ms same loose tidy = (
  (λ g. ground (arith, loose g, tidy.0 g)),
  (λ g u.
      ground (
        arith,
        tidy.1 g u,
        count_rows-same (is_member g u) hit f (λ m. ground (arith, same m)) ms,
      )),
  λ id.
      ground (
        arith,
        tidy.2 id,
        count_rows-same (λ m. m.id == id) hit f (λ m. ground (arith, same m)) ms,
      ),
)

pub IsTidy-where :
    (keep : MembershipRow → Bool) (ms : List MembershipRow)
    → IsTidy ms
    → IsTidy (where_rows keep ms)
IsTidy-where keep ms tidy = (
  (λ g. ground (
    arith,
    tidy.0 g,
    count_rows-where_le (λ m. is_admin_of g m && not (is_approved m.status)) keep ms,
  )),
  (λ g u. ground (arith, tidy.1 g u, count_rows-where_le (is_member g u) keep ms)),
  λ id. ground (arith, tidy.2 id, count_rows-where_le (λ m. m.id == id) keep ms),
)
