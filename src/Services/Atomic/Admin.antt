-- ===== src/Services/Atomic/Admin.antt =====
-- What the requests of services/groups.go, admin.go and registration.go leave when they fail.
use Prim.Native.String.{String}
use expense_splitter.Prelude.Text.{same_text}
use expense_splitter.Prelude.{ℕ, refl, Option, none, some, Bool-cases, inl, inr, Bool, true, false}
use expense_splitter.Types.Membership.{group_admin}
use expense_splitter.Types.Principal.{Principal}
use expense_splitter.Store.{UserRow}
use expense_splitter.Store.Action.{Action, pure}
use expense_splitter.Store.Hoare.{
  Pred, Triple, Triple-pure, Triple-bind, Triple-try_read, Triple-asks,
}
use expense_splitter.Services.Authz.{principal_by_user_id, principal_from_row}
use expense_splitter.Store.Users.{get_user_by_keycloak_id}
use expense_splitter.Store.Users.{get_user_by_id, get_user_admin_view, count_user_memberships}
use expense_splitter.Store.Groups.{
  GroupFields, get_group_status, get_group_by_id, group_has_history,
}
use expense_splitter.Services.Groups.{CreateGroupRequest, resolve_admin, create_group, update_group}
use expense_splitter.Services.Admin.{global_admin_caller, admin_delete_user, admin_delete_group}
use expense_splitter.Services.Registration.{register, register_subject, link_or_create}
use expense_splitter.Services.Reads.{
  Anything, require_group_role-Reads, in_tx-Atomic, run-Atomic, caller-Reads, unless-Reads,
  if-Reads, lift-Reads, read,
}

module _ {P : Pred} where
  pub resolve_admin-Reads :
      (global : Bool) (caller : Principal) (assigned : Option ℕ)
      → Triple P (resolve_admin global caller assigned) (λ a. P) P
  unfolding resolve_admin principal_by_user_id get_user_by_id
  resolve_admin-Reads true caller none = record { holds = λ env w p. p }
  resolve_admin-Reads true caller (some x) = Triple-bind (if-Reads _ _) λ u.
      Triple-bind
        (Triple-bind (read (get_user_by_id x) _ λ id now db. refl) (λ v. Triple-pure _ (λ db p. p)))
        λ target. Triple-bind (unless-Reads _ _) (λ u. Triple-pure _ (λ db p. p))
  resolve_admin-Reads false caller (some x) = record { holds = λ env w p. p }
  resolve_admin-Reads false caller none =
      Triple-bind (lift-Reads _) (λ u. Triple-pure _ (λ db p. p))

  pub create_group-Atomic :
      (subject : ℕ) (req : CreateGroupRequest) → Triple P (create_group subject req) Anything P
  unfolding create_group
  create_group-Atomic subject req = Triple-asks λ env.
      Triple-bind (caller-Reads subject) λ caller.
        Triple-bind (resolve_admin-Reads _ caller req.admin_user_id) λ admin. in_tx-Atomic _

  pub update_group-Atomic :
      (subject group_id : ℕ) (req : GroupFields)
      → Triple P (update_group subject group_id req) Anything P
  unfolding update_group get_group_status
  update_group-Atomic subject group_id req = Triple-bind (caller-Reads subject) λ caller.
      Triple-bind (require_group_role-Reads caller group_id group_admin) λ u.
        Triple-bind (read (get_group_status group_id) _ λ id now db. refl)
          λ s. Triple-bind (unless-Reads _ _) λ u. run-Atomic _ _

  pub global_admin_caller-Reads : (subject : ℕ) → Triple P (global_admin_caller subject) (λ a. P) P
  unfolding global_admin_caller
  global_admin_caller-Reads subject =
      Triple-bind (caller-Reads subject)
        λ caller. Triple-bind (lift-Reads _) (λ u. Triple-pure _ (λ db p. p))

  pub admin_delete_user-Atomic :
      (subject user_id : ℕ) → Triple P (admin_delete_user subject user_id) Anything P
  unfolding admin_delete_user get_user_admin_view count_user_memberships
  admin_delete_user-Atomic subject user_id =
      Triple-bind (global_admin_caller-Reads subject) λ caller. Triple-bind (if-Reads _ _) λ u.
        Triple-bind (read (get_user_admin_view user_id) _ λ id now db. refl) λ target.
          Triple-bind (if-Reads _ _) λ u.
            Triple-bind (read (count_user_memberships user_id) _ λ id now db. refl)
              λ n. Triple-bind (if-Reads _ _) λ u. in_tx-Atomic _

  pub admin_delete_group-Atomic :
      (subject group_id : ℕ) → Triple P (admin_delete_group subject group_id) Anything P
  unfolding admin_delete_group get_group_by_id group_has_history
  admin_delete_group-Atomic subject group_id =
      Triple-bind (global_admin_caller-Reads subject) λ caller.
        Triple-bind (read (get_group_by_id group_id) _ λ id now db. refl) λ g.
          Triple-bind (read (group_has_history group_id) _ λ id now db. refl)
            λ h. Triple-bind (if-Reads _ _) λ u. in_tx-Atomic _

  pub known_or-Atomic :
      (known : Option UserRow) (m : Action Principal)
      → Triple P m Anything P
      → Triple P (elim known [ some u ↦ pure (principal_from_row u) | none ↦ m ]) Anything P
  known_or-Atomic none m h = h
  known_or-Atomic (some u) m h = Triple-pure _ (λ db p. tt)

  pub register-Atomic :
      (subject : ℕ) (email : String) → Triple P (register (some subject) email) Anything P
  unfolding register register_subject link_or_create get_user_by_keycloak_id
  register-Atomic subject email = elim (Bool-cases (same_text email "")) [
    | inl empty ↦ rw empty (record { holds = λ env w p. p })
    | inr given ↦ rw given (
        Triple-bind
          (Triple-try_read (λ db p. p) (get_user_by_keycloak_id subject) λ id now db. refl)
          λ known. known_or-Atomic known _ (Triple-asks λ env. in_tx-Atomic _))
  ]
