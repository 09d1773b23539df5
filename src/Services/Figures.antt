-- ===== src/Services/Figures.antt =====
-- `GroupSummary` of services/summary.go against the snapshot of services/close.go: two computations
-- of the same figures.
use Prim.Native.String.{String}
use expense_splitter.Prelude.{
  length-map, if◌then◌else◌, false, ℕ, ◌≡◌, refl, sym, ap, ◌∙◌, Option, some, List, [], map, length,
  Bool, true, arith,
}
use expense_splitter.Prelude.Int.{ℤ, pos}
use expense_splitter.Prelude.Dict.{Dict}
use expense_splitter.Types.ApiError.{ApiError, ok}
use expense_splitter.Types.Membership.{group_admin, member}
use expense_splitter.Types.Expense.{ExpenseCategory}
use expense_splitter.Settlement.Allocations.{ListExpenseAllocationsRow, allocations_from_rows}
use expense_splitter.Settlement.Fair.{build_fair_shares}
use expense_splitter.Settlement.Plan.{MemberBalance}
use expense_splitter.Store.{MembershipRow, SettlementSnapshot, Db}
use expense_splitter.Store.Action.{Env, World, Reply, row, failed, or_raise}
use expense_splitter.Store.Rows.{where_rows}
use expense_splitter.Store.Hoare.{
  Holds-ok, Triple, Triple-pure, Triple-bind, Triple-given, Triple-map, Triple-in_tx,
  Triple-or_raise, Triple-read_only, Triple-read,
}
use expense_splitter.Store.Groups.{get_group_by_id, lock_group}
use expense_splitter.Store.Memberships.{list_approved_members}
use expense_splitter.Store.Expenses.{
  is_live, sum_paid_by_member, sum_spend_by_category, list_expense_allocations,
}
use expense_splitter.Services.Close.{
  CloseResult, balances, paid_map, total_paid, close_open_group, close_group,
}
use expense_splitter.Services.Summary.{GroupSummary, summary_of, total_of_rows, group_summary}
use expense_splitter.Services.Reads.{principal_by_keycloak_id-Reads, require_group_role-Reads}
use expense_splitter.Services.Frame.{Anywhere, anywhere, unless-Keeps}
use expense_splitter.Store.Settlement.{get_settlement_snapshot}
use expense_splitter.Services.Snapshot.{HasSnapshot, store_plan-HasSnapshot}
use expense_splitter.Services.Totals.{IsMap, totals_by-IsMap, total_of_rows-total_paid}
use expense_splitter.Services.Joined.{as_balance, balances-summary, user_ids}
use expense_splitter.Services.Readings.{Still, run-Reading}

-- What both read, as the database answers it: what each member paid, the categories, and the splits.
abbrev Read :
    Db → ℕ → List (ℕ × ℤ) → List (ExpenseCategory × ℤ) → List ListExpenseAllocationsRow → Type 0
Read db0 id paid cats allocs =
    ((sum_paid_by_member id 0 0 db0).0 ≡ row paid)
    × ((sum_spend_by_category id 0 0 db0).0 ≡ row cats)
    × ((list_expense_allocations id 0 0 db0).0 ≡ row allocs)

-- The figures of a list of members and of what was read.
abbrev AreFigures :
    List MembershipRow → List (ℕ × ℤ) → List ListExpenseAllocationsRow → List MemberBalance → Type 0
AreFigures members paid allocs bs =
    (fair : Dict ℤ) × (build_fair_shares (map (λ m. m.user_id) members)
        (allocations_from_rows allocs)
      ≡ some fair)
    × (bs ≡ balances (paid_map paid []) fair members)

-- The snapshot's figures come from the database as the close found it.
abbrev IsSnapshotOf : Db → ℕ → SettlementSnapshot → Type 0
IsSnapshotOf db0 id s =
    (named : List (MembershipRow × String)) × (paid : List (ℕ × ℤ)) × (allocs : List
      ListExpenseAllocationsRow)
    × ((list_approved_members id 0 0 db0).0 ≡ row named)
    × Read db0 id paid s.spend_per_category allocs
    × AreFigures (map (λ m. m.0) named) paid allocs s.members
    × (s.member_count ≡ length (map (λ m. m.0) named))
    × (s.total_spent ≡ total_paid (paid_map paid []))

module _ (db0 : Db) (id : ℕ) where
  or_raise-Reading :
      {A : Type 0} (e : ApiError) (o : Option A)
      → Triple (Still db0) (or_raise e o) (λ a db. Still db0 db × (o ≡ some a)) Anywhere
  or_raise-Reading e o = Triple-or_raise (anywhere _) e o

  close_open_group-Figures :
      (caller : ℕ)
      → Triple
          (Still db0)
          (close_open_group caller id)
          (λ r db. IsSnapshotOf db0 id r.snapshot × HasSnapshot id r.snapshot db)
          Anywhere
  unfolding close_open_group list_approved_members sum_paid_by_member sum_spend_by_category
      list_expense_allocations
  close_open_group-Figures caller = Triple-bind (run-Reading db0 _ _) λ named.
      Triple-given λ is_named. Triple-bind (run-Reading db0 _ _) λ paid. Triple-given λ is_paid.
        Triple-bind (run-Reading db0 _ _) λ cats. Triple-given λ is_cats.
          Triple-bind (run-Reading db0 _ _) λ allocs. Triple-given λ is_allocs.
            Triple-bind (or_raise-Reading _ _) λ fair. Triple-given λ is_fair.
              Triple-bind (or_raise-Reading _ _) λ plan. Triple-given λ is_plan.
                Triple-bind
                  (Triple-map (λ db h. tt) (λ u db h. h) (store_plan-HasSnapshot id _ caller plan))
                  λ u. Triple-pure _ λ db stored. (
                    (
                      named,
                      paid,
                      allocs,
                      is_named,
                      (is_paid, is_cats, is_allocs),
                      (fair, is_fair, refl),
                      refl,
                      refl,
                    ),
                    stored,
                  )

  close_group-Figures :
      (subject : ℕ)
      → Triple
          (Still db0)
          (close_group subject id)
          (λ r db. IsSnapshotOf db0 id r.snapshot × HasSnapshot id r.snapshot db)
          Anywhere
  unfolding close_group lock_group
  close_group-Figures subject =
      Triple-bind (Triple-read_only (principal_by_keycloak_id-Reads subject _) (anywhere _))
        λ caller.
          Triple-bind
            (Triple-read_only (require_group_role-Reads caller id group_admin) (anywhere _))
            λ u. Triple-in_tx {F = Anywhere} (anywhere _) (
              Triple-bind (Triple-read (anywhere _) (lock_group id) _ λ uuid now db. refl) λ s.
                Triple-bind (unless-Keeps (anywhere _) _ _)
                  λ u. close_open_group-Figures caller.user_id)

-- What a summary is made of.
abbrev pub IsSummaryOf : Db → ℕ → GroupSummary → Type 0
IsSummaryOf db0 id s =
    (named : List (MembershipRow × String)) × (paid : List (ℕ × ℤ)) × (allocs : List
      ListExpenseAllocationsRow)
    × (fair : Dict ℤ) × ((list_approved_members id 0 0 db0).0 ≡ row named)
    × Read db0 id paid s.spend_per_category allocs
    × (build_fair_shares (map (λ m. m.0.user_id) named) (allocations_from_rows allocs) ≡ some fair)
    × (s.members ≡ map (summary_of (paid_map paid []) fair) named)
    × (s.member_count ≡ length named)
    × (s.total_spent ≡ total_of_rows (pos 0) paid)

group_summary-Figures :
    (db0 : Db) (id subject : ℕ)
    → Triple (Still db0) (group_summary subject id) (λ s db. IsSummaryOf db0 id s) Anywhere
unfolding group_summary get_group_by_id list_approved_members sum_paid_by_member
    sum_spend_by_category list_expense_allocations
group_summary-Figures db0 id subject =
    Triple-bind (Triple-read_only (principal_by_keycloak_id-Reads subject _) (anywhere _)) λ caller.
      Triple-bind (Triple-read_only (require_group_role-Reads caller id member) (anywhere _)) λ u.
        Triple-bind (Triple-read (anywhere _) (get_group_by_id id) _ λ uuid now db. refl) λ g.
          Triple-bind (run-Reading db0 _ _) λ named. Triple-given λ is_named.
            Triple-bind (run-Reading db0 _ _) λ paid. Triple-given λ is_paid.
              Triple-bind (run-Reading db0 _ _) λ cats. Triple-given λ is_cats.
                Triple-bind (run-Reading db0 _ _) λ allocs. Triple-given λ is_allocs.
                  Triple-bind (or_raise-Reading db0 id _ _) λ fair. Triple-given λ is_fair.
                    Triple-pure _ λ db h. (
                      named,
                      paid,
                      allocs,
                      fair,
                      is_named,
                      (is_paid, is_cats, is_allocs),
                      is_fair,
                      refl,
                      refl,
                      refl,
                    )

same-row : {A : Type 0} (r : Reply A) (a b : A) → r ≡ row a → r ≡ row b → a ≡ b
same-row r a b h k = cc

same-some : {A : Type 0} (o : Option A) (a b : A) → o ≡ some a → o ≡ some b → a ≡ b
same-some o a b h k = cc

-- The figures that the two have in common.
abbrev pub Agrees : GroupSummary → SettlementSnapshot → Type 0
Agrees s c =
    (map as_balance s.members ≡ c.members)
    × (s.member_count ≡ c.member_count)
    × (s.spend_per_category ≡ c.spend_per_category)
    × (s.total_spent ≡ c.total_spent)

if-row : {A : Type 0} (b : Bool) (x y : A) → (if b then row x else failed) ≡ row y → x ≡ y
if-row true x y h = cc
if-row false x y h = ground arith

paid-IsMap :
    (id : ℕ) (db : Db) (paid : List (ℕ × ℤ))
    → (sum_paid_by_member id 0 0 db).0 ≡ row paid
    → IsMap paid
unfolding sum_paid_by_member
paid-IsMap id db paid h =
    rw⁻¹ (if-row _ _ paid h)
      (totals_by-IsMap (λ e. e.paid_by) (where_rows (is_live id) db.expenses))

summary-Agrees :
    (id : ℕ) (db : Db) (s : GroupSummary) (c : SettlementSnapshot)
    → IsSummaryOf db id s
    → IsSnapshotOf db id c
    → Agrees s c
summary-Agrees id db s c (named, paid, allocs, fair, n, r, f, m, count, total)
      (named', paid', allocs', n', r', (fair', f', m'), count', total') =
    let same_named = same-row _ named named' n n' in
    let same_paid = same-row _ paid paid' r.0 r'.0 in
    let same_allocs = same-row _ allocs allocs' r.2 r'.2 in
    let ids = user_ids named ∙ ap (λ ns. map (λ x. x.user_id) (map (λ x. x.0) ns)) same_named in
    let same_fair : fair ≡ fair' =
      same-some
        (build_fair_shares (map (λ x. x.user_id) (map (λ x. x.0) named'))
          (allocations_from_rows allocs'))
        fair fair' (rw⁻¹ (ids, same_allocs) f) f' in
    (
      ap (λ xs. map as_balance xs) m
          ∙ balances-summary (paid_map paid []) fair named
          ∙ rw (same_named, same_paid, same_fair) refl
          ∙ sym m',
      count
          ∙ sym (length-map (λ x. x.0) named)
          ∙ ap (λ ns. length (map (λ x. x.0) ns)) same_named
          ∙ sym count',
      same-row _ s.spend_per_category c.spend_per_category r.1 r'.1,
      total
          ∙ total_of_rows-total_paid paid (paid-IsMap id db paid r.0)
          ∙ ap (λ p. total_paid (paid_map p [])) same_paid
          ∙ sym total',
    )

-- GroupSummary and CloseGroup, when both succeed on the same database, whoever asks and whatever the
-- environment, give the same figures: for each member what was paid, the fair share and the net, the
-- number of members, the sums of the categories and the total. The snapshot that the close returns is
-- the one that the database holds for the group afterwards.
pub group_summary-Agrees :
    (id subject subject' : ℕ) (env env' : Env) (w w' : World) (s : GroupSummary) (c : CloseResult)
    → w'.db ≡ w.db
    → (group_summary subject id env w).0 ≡ ok s
    → (close_group subject' id env' w').0 ≡ ok c
    → Agrees s c.snapshot
      × ((get_settlement_snapshot id 0 0 (close_group subject' id env' w').1.db).0 ≡ row c.snapshot)
group_summary-Agrees id subject subject' env env' w w' s c same hs hc =
    let closed =
      Holds-ok (λ x db. IsSnapshotOf w.db id x.snapshot × HasSnapshot id x.snapshot db) Anywhere
        (close_group subject' id env' w').0 (close_group subject' id env' w').1 c
        ((close_group-Figures w.db id subject').holds env' w' same) hc in
    (
      summary-Agrees id w.db s c.snapshot
          (Holds-ok (λ x db. IsSummaryOf w.db id x) Anywhere (group_summary subject id env w).0
            (group_summary subject id env w).1 s
            ((group_summary-Figures w.db id subject).holds env w refl) hs)
          closed.0,
      closed.1,
    )
