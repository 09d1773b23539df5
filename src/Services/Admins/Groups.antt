-- ===== src/Services/Admins/Groups.antt =====
-- The requests that create and delete a group, of services/groups.go and admin.go, against the group
-- admins.
use expense_splitter.Prelude.{
  ℕ, ◌≡◌, refl, Bool, true, false, not, ◌&&◌, ◌||◌, List, [], ◌∷◌, ◌++◌, ◌==◌, if◌then◌else◌,
  Bool-cases, inl, inr, arith,
}
use expense_splitter.Store.{GroupRow, MembershipRow, Db}
use expense_splitter.Store.Action.{row, failed, exec}
use expense_splitter.Store.Rows.{exists_row, where_rows}
use expense_splitter.Store.Hoare.{
  Pred, Replies, Triple, Triple-bind, Triple-asks, Triple-map, Triple-run, Triple-raise_unless,
  Replies-if,
}
use expense_splitter.Store.Groups.{
  GroupFields, create_group_row, delete_group, get_group_by_id, group_has_history,
}
use expense_splitter.Store.Memberships.{
  is_member, is_admin_of, create_group_admin_membership, delete_group_memberships,
}
use expense_splitter.Services.Groups.{CreateGroupRequest, create_group}
use expense_splitter.Services.Admin.{admin_delete_group}
use expense_splitter.Services.Reads.{principal_by_keycloak_id-Reads, if-Reads, read}
use expense_splitter.Services.Atomic.Admin.{resolve_admin-Reads, global_admin_caller-Reads}
use expense_splitter.Services.Frame.{
  Anywhere, anywhere, write_system_audit-Stable, done-Keeps, tx-Keeps,
}
use expense_splitter.Services.Admins.{admins, IsTidy, HasOneAdmin, Lacks, Vacant}
use expense_splitter.Services.Admins.Tidy.{steady, IsTidy-append, admins-append, IsTidy-where}
use expense_splitter.Services.Admins.Rows.{
  exists_row-append, exists_row-none, exists_row-where, exists_row-gone, count_rows-gone,
  count_rows-where, count_rows-none,
}

-- A new group lacks an admin.
grown :
    (groups : List GroupRow) (ms : List MembershipRow) (g : GroupRow)
    → exists_row (λ x. x.id == g.id) groups ≡ false
    → ((h : ℕ) → admins h ms ≡ (if exists_row (λ x. x.id == h) groups then 1 else 0)) × IsTidy ms
    → Vacant g.id (groups ++ (g ∷ [])) ms
grown groups ms g new p = (
  ((λ h. ground (arith, p.0 h, p.0 g.id, new, exists_row-append (λ x. x.id == h) groups g)), p.1),
  ground (arith, exists_row-append (λ x. x.id == g.id) groups g),
)

create_row-Vacant :
    (invite_token status_token : ℕ) (f : GroupFields) (created_by : ℕ)
    → Triple HasOneAdmin
        (exec (create_group_row invite_token status_token f created_by))
        (λ g db. Vacant g.id db.groups db.memberships)
        Anywhere
unfolding create_group_row
create_row-Vacant invite_token status_token f created_by =
    Triple-run (create_group_row invite_token status_token f created_by) _ (anywhere _)
      λ id now db p.
        Replies-if (λ g db'. Vacant g.id db'.groups db'.memberships) _ _ db _
          λ fits. grown db.groups db.memberships _ (ground (arith, fits)) p

Replies-unless :
    {A : Type 0} (Q : A → Pred) (b : Bool) (a : A) (db db' : Db)
    → (b ≡ false → Q a db')
    → Replies Q (if b then (failed, db) else (row a, db'))
Replies-unless Q true a db db' h = tt
Replies-unless Q false a db db' h = h refl

-- The row of the group's only admin.
filled :
    (id : ℕ) (groups : List GroupRow) (ms : List MembershipRow) (m : MembershipRow)
    → is_admin_of id m ≡ true
    → Vacant id groups ms
    → (g : ℕ) → admins g (ms ++ (m ∷ [])) ≡ (if exists_row (λ x. x.id == g) groups then 1 else 0)
filled id groups ms m here p g = ground (arith, p.0.0 g, p.0.0 id, p.1, admins-append g ms m)

abbrev is_taken : ℕ → ℕ → ℕ → MembershipRow → Bool
is_taken group_id user_id id n =
    (n.id == id) || is_member group_id user_id n || is_admin_of group_id n

first_admin-OneAdmin :
    (group_id user_id : ℕ)
    → Triple
        (λ db. Vacant group_id db.groups db.memberships)
        (exec (create_group_admin_membership group_id user_id))
        (λ u. HasOneAdmin)
        Anywhere
unfolding create_group_admin_membership
first_admin-OneAdmin group_id user_id =
    Triple-run (create_group_admin_membership group_id user_id) _ (anywhere _) λ id now db p.
      Replies-unless (λ u. HasOneAdmin) _ tt db _
        λ free. (
          filled group_id db.groups db.memberships _ (ground arith) p,
          IsTidy-append db.memberships _ refl
              (exists_row-none (is_taken group_id user_id id) (is_member group_id user_id)
                (λ n h. ground (arith, h)) db.memberships (ground (arith, free)))
              (exists_row-none (is_taken group_id user_id id) (λ n. n.id == id)
                (λ n h. ground (arith, h)) db.memberships (ground (arith, free)))
              p.0.1,
        )

pub create_group-OneAdmin :
    (subject : ℕ) (req : CreateGroupRequest)
    → Triple HasOneAdmin (create_group subject req) (λ g. HasOneAdmin) HasOneAdmin
unfolding create_group
create_group-OneAdmin subject req = Triple-asks λ env.
    Triple-bind (principal_by_keycloak_id-Reads subject _) λ caller.
      Triple-bind (resolve_admin-Reads _ caller req.admin_user_id) λ admin. tx-Keeps (
        Triple-bind (create_row-Vacant _ _ _ _)
          λ g. Triple-bind (first_admin-OneAdmin g.id admin) λ u. done-Keeps g)

-- The memberships of a group go, and then the group.
vacated-Lacks :
    (id : ℕ) (groups : List GroupRow) (ms : List MembershipRow)
    → ((g : ℕ) → admins g ms ≡ (if exists_row (λ x. x.id == g) groups then 1 else 0)) × IsTidy ms
    → Lacks id groups (where_rows (λ m. not (m.group_id == id)) ms)
vacated-Lacks id groups ms p = (
  (λ g. elim (Bool-cases (g == id)) [
    | inl same ↦ ground (
      arith,
      count_rows-gone (is_admin_of g) (λ m. not (m.group_id == id)) (λ m h. ground (arith, h, same))
          ms,
    )
    | inr other ↦ ground (
      arith,
      p.0 g,
      count_rows-where (is_admin_of g) (λ m. not (m.group_id == id)) ms
          (count_rows-none (λ m. is_admin_of g m && not (not (m.group_id == id)))
            (λ m. ground (arith, other)) ms),
    )
  ]),
  IsTidy-where (λ m. not (m.group_id == id)) ms p.1,
)

delete_memberships-Lacks :
    (group_id : ℕ)
    → Triple HasOneAdmin
        (exec (delete_group_memberships group_id))
        (λ u db. Lacks group_id db.groups db.memberships)
        Anywhere
unfolding delete_group_memberships
delete_memberships-Lacks group_id =
    Triple-run (delete_group_memberships group_id) _ (anywhere _) λ id now db p.
      Replies-unless (λ u db'. Lacks group_id db'.groups db'.memberships) _ tt db _
        λ free. vacated-Lacks group_id db.groups db.memberships p

gone-OneAdmin :
    (id : ℕ) (groups : List GroupRow) (ms : List MembershipRow)
    → Lacks id groups ms
    → (g : ℕ)
    → admins g ms
      ≡ (if exists_row (λ x. x.id == g) (where_rows (λ x. not (x.id == id)) groups) then 1 else 0)
gone-OneAdmin id groups ms p g = elim (Bool-cases (g == id)) [
  | inl same ↦ ground (
    arith,
    p.0 g,
    exists_row-gone (λ x. x.id == g) (λ x. not (x.id == id)) (λ x h. ground (arith, h, same))
        groups,
  )
  | inr other ↦ ground (
    arith,
    p.0 g,
    exists_row-where (λ x. x.id == g) (λ x. not (x.id == id)) (λ x h. ground (arith, h, other))
        groups,
  )
]

Replies-either :
    (Q : Bool → Pred) (b : Bool) (db db' : Db)
    → Q false db
    → Q true db'
    → Replies Q (if b then (row false, db) else (row true, db'))
Replies-either Q true db db' h k = h
Replies-either Q false db db' h k = k

delete_row-OneAdmin :
    (group_id : ℕ)
    → Triple
        (λ db. Lacks group_id db.groups db.memberships)
        (exec (delete_group group_id))
        (λ deleted db. deleted ≡ true → HasOneAdmin db)
        Anywhere
unfolding delete_group
delete_row-OneAdmin group_id = Triple-run (delete_group group_id) _ (anywhere _) λ id now db p.
    Replies-either (λ deleted db'. deleted ≡ true → HasOneAdmin db') _ db _ (λ h. cc)
      (λ h. (gone-OneAdmin group_id db.groups db.memberships p, p.1))

pub admin_delete_group-OneAdmin :
    (subject group_id : ℕ)
    → Triple HasOneAdmin (admin_delete_group subject group_id) (λ u. HasOneAdmin) HasOneAdmin
unfolding admin_delete_group get_group_by_id group_has_history
admin_delete_group-OneAdmin subject group_id =
    Triple-bind (global_admin_caller-Reads subject) λ caller.
      Triple-bind (read (get_group_by_id group_id) _ λ id now db. refl) λ g.
        Triple-bind (read (group_has_history group_id) _ λ id now db. refl) λ h.
          Triple-bind (if-Reads _ _) λ u. tx-Keeps (
            Triple-bind (delete_memberships-Lacks group_id) λ u.
              Triple-bind (delete_row-OneAdmin group_id) λ deleted.
                Triple-bind {Q = λ u. HasOneAdmin}
                  (Triple-map (λ db p. p) (λ u db p. p.0 p.1)
                    (Triple-raise_unless (anywhere _) deleted _))
                  λ u. write_system_audit-Stable steady (anywhere _) _ _ _)
