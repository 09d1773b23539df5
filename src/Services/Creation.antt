-- ===== src/Services/Creation.antt =====
-- What a successful `CreateGroup` of services/groups.go rests on and adds.
use expense_splitter.Prelude.{
  ℕ, ◌≡◌, refl, sym, ap, ◌∙◌, Bool, true, false, Option, none, some, [], ◌∷◌, ◌++◌, ◌==◌, arith,
  if◌then◌else◌,
}
use expense_splitter.Types.ApiError.{ApiError, ok}
use expense_splitter.Types.Principal.{Principal, is_verified}
use expense_splitter.Types.Membership.{group_admin, approved}
use expense_splitter.Types.Group.{group_open}
use expense_splitter.Store.{UserRow, GroupRow, MembershipRow, Db}
use expense_splitter.Store.Action.{Env, World, row, failed, run}
use expense_splitter.Store.Rows.{find, exists_row}
use expense_splitter.Store.Hoare.{
  Pred, Replies, Replies-if, Holds-ok, Triple, Triple-pure, Triple-bind, Triple-given, Triple-run,
  Triple-in_tx, Triple-asks, Triple-raise_if, Triple-raise_unless, Triple-lift,
}
use expense_splitter.Store.Users.{same_key, get_user_by_keycloak_id, get_user_by_id}
use expense_splitter.Store.Groups.{GroupFields, fits_group, create_group_row}
use expense_splitter.Store.Memberships.{create_group_admin_membership}
use expense_splitter.Services.Authz.{
  principal_by_keycloak_id, principal_by_user_id, principal_from_row, require_verified,
}
use expense_splitter.Services.Groups.{CreateGroupRequest, resolve_admin, create_group}
use expense_splitter.Services.Frame.{Anywhere, anywhere}
use expense_splitter.Services.Readings.{Still, one-row, run-Reading}

-- The account of a subject, as the service sees it.
abbrev pub IsCaller : Db → ℕ → Principal → Type 0
IsCaller db subject p =
    (u : UserRow) × (find (λ v. same_key subject v.keycloak_id) db.users ≡ some u)
    × (p ≡ principal_from_row u)

abbrev fields_of : GroupRow → GroupFields
fields_of g = record {
  name = g.name;
  start_date = g.start_date;
  end_date = g.end_date;
  expected_member_count = g.expected_member_count;
}

pub Replies-unless :
    {A : Type 0} (Q : A → Pred) (b : Bool) (a : A) (db db' : Db)
    → (b ≡ false → Q a db')
    → Replies Q (if b then (failed, db) else (row a, db'))
Replies-unless Q true a db db' h = tt
Replies-unless Q false a db db' h = h refl

-- Who may make whom the admin of a new group: a verified user makes himself, and the global admin
-- another user, who is verified.
pub data Appoints (db : Db) (caller : Principal) : Option ℕ → ℕ → Type 0 where
  self :
      caller.is_global_admin ≡ false
      → is_verified caller ≡ true
      → Appoints db caller none caller.user_id
  another :
      (u : UserRow) (id : ℕ)
      → caller.is_global_admin ≡ true
      → (id == caller.user_id) ≡ false
      → find (λ v. v.id == id) db.users ≡ some u
      → is_verified (principal_from_row u) ≡ true
      → Appoints db caller (some id) u.id

module _ (db0 : Db) where
  pub principal_by_keycloak_id-IsCaller :
      (subject : ℕ) (e : ApiError)
      → Triple
          (Still db0)
          (principal_by_keycloak_id subject e)
          (λ p db. Still db0 db × IsCaller db0 subject p)
          Anywhere
  unfolding principal_by_keycloak_id get_user_by_keycloak_id
  principal_by_keycloak_id-IsCaller subject e =
      Triple-bind (run-Reading db0 _ e)
        λ u. Triple-given λ found. Triple-pure _ λ db h. (h, (u, one-row _ u found, refl))

  target-found :
      (id : ℕ) (e : ApiError)
      → Triple
          (Still db0)
          (principal_by_user_id id e)
          (λ p db.
            Still db0 db
            × ((u : UserRow) × (find (λ v. v.id == id) db0.users ≡ some u)
                × (p ≡ principal_from_row u)))
          Anywhere
  unfolding principal_by_user_id get_user_by_id
  target-found id e =
      Triple-bind (run-Reading db0 _ e)
        λ u. Triple-given λ found. Triple-pure _ λ db h. (h, (u, one-row _ u found, refl))

  require-true : (p : Principal) → require_verified p ≡ ok tt → is_verified p ≡ true
  unfolding require_verified
  require-true p h = ground (arith, h)

  resolve_admin-Appoints :
      (global : Bool) (caller : Principal) (assigned : Option ℕ)
      → caller.is_global_admin ≡ global
      → Triple
          (Still db0)
          (resolve_admin global caller assigned)
          (λ id db. Still db0 db × Appoints db0 caller assigned id)
          Anywhere
  unfolding resolve_admin
  resolve_admin-Appoints true caller none g = record { holds = λ env w p. tt }
  resolve_admin-Appoints true caller (some id) g =
      Triple-bind (Triple-raise_if (anywhere _) _ _) λ u. Triple-given λ other.
        Triple-bind (target-found id _) λ target. Triple-given λ t.
          Triple-bind (Triple-raise_unless (anywhere _) _ _) λ u. Triple-given λ verified.
            Triple-pure _ λ db h. (
              h,
              rw (ap (λ p. p.user_id) t.2)
                  (another t.0 id g other t.1 (ap is_verified (sym t.2) ∙ verified)),
            )
  resolve_admin-Appoints false caller (some id) g = record { holds = λ env w p. tt }
  resolve_admin-Appoints false caller none g =
      Triple-bind (Triple-lift (anywhere _) (require_verified caller)) λ u.
        Triple-given λ verified. Triple-pure _ λ db h. (h, self g (require-true caller verified))

  -- What the insert of the group has checked and written.
  abbrev pub IsNewGroup : CreateGroupRequest → ℕ → GroupRow → Type 0
  IsNewGroup req creator g =
      (fields_of g ≡ req.fields)
      × (g.status ≡ group_open)
      × (g.created_by ≡ creator)
      × (fits_group req.fields ≡ true)
      × (exists_row (λ x. x.id == g.id) db0.groups ≡ false)
      × (exists_row (λ x. x.invite_token == g.invite_token) db0.groups ≡ false)
      × (exists_row (λ x. x.status_token == g.status_token) db0.groups ≡ false)

  abbrev with_group : GroupRow → Db
  with_group g = record db0 { groups = db0.groups ++ (g ∷ []) }

  insert_group :
      (a b : ℕ) (req : CreateGroupRequest) (creator uuid now : ℕ)
      → Replies
          (λ g db. Still (with_group g) db × IsNewGroup req creator g)
          (create_group_row a b req.fields creator uuid now db0)
  unfolding create_group_row
  insert_group a b req creator uuid now =
      Replies-if (λ g db. Still (with_group g) db × IsNewGroup req creator g) _ _ db0 _
        λ h. (
          refl,
          (
            refl,
            refl,
            refl,
            ground (arith, h),
            ground (arith, h),
            ground (arith, h),
            ground (arith, h),
          ),
        )

  run_insert_group :
      (a b : ℕ) (req : CreateGroupRequest) (creator : ℕ) (e : ApiError)
      → Triple
          (Still db0)
          (run (create_group_row a b req.fields creator) e)
          (λ g db. Still (with_group g) db × IsNewGroup req creator g)
          Anywhere
  run_insert_group a b req creator e =
      Triple-run _ e (anywhere _) λ id now db h. rw h (insert_group a b req creator id now)

  -- The first membership of a group.
  abbrev pub IsFirstAdmin : ℕ → ℕ → MembershipRow → Type 0
  IsFirstAdmin group_id user_id m =
      (m.group_id ≡ group_id)
      × (m.user_id ≡ user_id)
      × (m.role ≡ group_admin)
      × (m.status ≡ approved)

  -- The database with the new group and its first membership.
  abbrev pub HasBoth : GroupRow → ℕ → Db → Type 0
  HasBoth g admin db =
      (m : MembershipRow) × IsFirstAdmin g.id admin m
      × (db ≡ record db0 {
        groups = db0.groups ++ (g ∷ []);
        memberships = db0.memberships ++ (m ∷ []);
      })

  insert_admin :
      (g : GroupRow) (admin uuid now : ℕ)
      → Replies
          (λ u db. HasBoth g admin db)
          (create_group_admin_membership g.id admin uuid now (with_group g))
  unfolding create_group_admin_membership
  insert_admin g admin uuid now =
      Replies-unless (λ u db. HasBoth g admin db) _ _ _ _ λ h. (_, (refl, refl, refl, refl), refl)

  run_insert_admin :
      (g : GroupRow) (admin : ℕ) (e : ApiError)
      → Triple
          (Still (with_group g))
          (run (create_group_admin_membership g.id admin) e)
          (λ u. HasBoth g admin)
          Anywhere
  run_insert_admin g admin e =
      Triple-run _ e (anywhere _) λ id now db h. rw h (insert_admin g admin id now)

  -- What a new group rests on and how it stands in the database.
  abbrev pub IsCreated : ℕ → CreateGroupRequest → GroupRow → Db → Type 0
  IsCreated subject req g db =
      (caller : Principal) × (admin : ℕ) × IsCaller db0 subject caller
      × Appoints db0 caller req.admin_user_id admin
      × IsNewGroup req caller.user_id g
      × HasBoth g admin db

  create_group-IsCreated :
      (subject : ℕ) (req : CreateGroupRequest)
      → Triple (Still db0) (create_group subject req) (IsCreated subject req) Anywhere
  unfolding create_group
  create_group-IsCreated subject req = Triple-asks λ env.
      Triple-bind (principal_by_keycloak_id-IsCaller subject _) λ caller. Triple-given λ c.
        Triple-bind (resolve_admin-Appoints caller.is_global_admin caller req.admin_user_id refl)
          λ admin. Triple-given λ appointed. Triple-in_tx (anywhere _) (
            Triple-bind (run_insert_group env.invite_token env.status_token req caller.user_id _)
              λ g. Triple-given λ new.
                Triple-bind (run_insert_admin g admin _)
                  λ u. Triple-pure _ λ db both. (caller, admin, c, appointed, new, both))

-- When CreateGroup returns a group, the account is registered; the admin is the account itself, when
-- it is verified and no global admin and names nobody, or another verified user, whom a global admin
-- names; the group has the fields of the request, is open, and its id and tokens were unused; and
-- the database has got exactly the group and its admin's approved membership.
pub create_group-Creates :
    (subject : ℕ) (req : CreateGroupRequest) (env : Env) (w : World) (g : GroupRow)
    → (create_group subject req env w).0 ≡ ok g
    → IsCreated w.db subject req g (create_group subject req env w).1.db
create_group-Creates subject req env w g e =
    Holds-ok (IsCreated w.db subject req) Anywhere (create_group subject req env w).0
      (create_group subject req env w).1 g
      ((create_group-IsCreated w.db subject req).holds env w refl) e
