-- ===== src/Services/Reads.antt =====
-- The steps of the requests that change nothing, and the transactions, which change nothing on an
-- error.
use expense_splitter.Prelude.{ℕ, refl, Bool}
use expense_splitter.Types.ApiError.{ApiError, Result}
use expense_splitter.Types.Membership.{MembershipRole}
use expense_splitter.Types.Principal.{Principal}
use expense_splitter.Store.{Db}
use expense_splitter.Store.Action.{
  Reply, row, no_rows, failed, Query, Action, run, in_tx, lift, raise_if, raise_unless,
}
use expense_splitter.Store.Hoare.{
  Pred, Replies, Triple, Triple-pure, Triple-lift, Triple-bind, Triple-map, Triple-run,
  Triple-in_tx, Triple-trivial, Triple-read, Triple-try_read, Triple-raise_if, Triple-raise_unless,
  ReadsOnly,
}
use expense_splitter.Services.Authz.{
  principal_by_keycloak_id, registered_caller, require_group_role,
}
use expense_splitter.Store.Users.{get_user_by_keycloak_id}
use expense_splitter.Store.Memberships.{get_membership}

-- Nothing is said of a success.
abbrev pub Anything : {A : Type 0} → A → Pred
Anything a db = Unit

Replies-Anything : {A : Type 0} (r : Reply A) (db : Db) → Replies Anything (r, db)
Replies-Anything (row a) db = tt
Replies-Anything no_rows db = tt
Replies-Anything failed db = tt

module _ {P : Pred} where
  pub principal_by_keycloak_id-Reads :
      (subject : ℕ) (e : ApiError) → Triple P (principal_by_keycloak_id subject e) (λ a. P) P
  unfolding principal_by_keycloak_id get_user_by_keycloak_id
  principal_by_keycloak_id-Reads subject e =
      Triple-bind (Triple-read (λ db p. p) (get_user_by_keycloak_id subject) e λ id now db. refl)
        (λ u. Triple-pure _ (λ db p. p))

  pub require_group_role-Reads :
      (p : Principal) (group_id : ℕ) (need : MembershipRole)
      → Triple P (require_group_role p group_id need) (λ a. P) P
  unfolding require_group_role get_membership
  require_group_role-Reads p group_id need =
      Triple-bind
        (Triple-try_read (λ db p. p) (get_membership group_id p.user_id) λ id now db. refl)
        (λ m. Triple-map (λ db p. p) (λ a db p. p.0) (Triple-lift (λ db p. p) _))

  pub in_tx-Atomic : {A : Type 0} (m : Action A) → Triple P (in_tx m) Anything P
  in_tx-Atomic m = Triple-in_tx (λ db p. p) (Triple-trivial m)

  pub run-Atomic : {A : Type 0} (q : Query A) (e : ApiError) → Triple P (run q e) Anything P
  run-Atomic q e =
      Triple-run q e (λ db p. p) λ id now db p. Replies-Anything (q id now db).0 (q id now db).1

  pub caller-Reads : (subject : ℕ) → Triple P (registered_caller subject) (λ a. P) P
  caller-Reads subject = principal_by_keycloak_id-Reads subject _

  pub unless-Reads : (b : Bool) (e : ApiError) → Triple P (raise_unless b e) (λ u. P) P
  unless-Reads b e = Triple-map (λ db p. p) (λ a db p. p.0) (Triple-raise_unless (λ db p. p) b e)

  pub if-Reads : (b : Bool) (e : ApiError) → Triple P (raise_if b e) (λ u. P) P
  if-Reads b e = Triple-map (λ db p. p) (λ a db p. p.0) (Triple-raise_if (λ db p. p) b e)

  pub lift-Reads : {A : Type 0} (r : Result A) → Triple P (lift r) (λ a. P) P
  lift-Reads r = Triple-map (λ db p. p) (λ a db p. p.0) (Triple-lift (λ db p. p) r)

  pub read : {A : Type 0} (q : Query A) (e : ApiError) → ReadsOnly q → Triple P (run q e) (λ a. P) P
  read q e h = Triple-read (λ db p. p) q e h
