-- ===== src/Services/Authz.antt =====
-- services/authz.go, and `principalByKeycloakID` and `principalFromRow` of
-- services/registration.go.
use expense_splitter.Prelude.{ℕ, true, false, Option, none, some}
use expense_splitter.Types.ApiError.{ApiError, Result, ok, err, require, new_forbidden_error}
use expense_splitter.Types.Principal.{Principal, is_verified}
use expense_splitter.Types.Membership.{Membership, MembershipRole, active, satisfies}
use expense_splitter.Store.{UserRow, MembershipRow}
use expense_splitter.Store.Action.{Action, pure, lift, try_run, run, ◌>>=◌}
use expense_splitter.Store.Users.{get_user_by_keycloak_id, get_user_by_id}
use expense_splitter.Store.Memberships.{get_membership}

abbrev pub principal_from_row : UserRow → Principal
principal_from_row u = record {
  user_id = u.id;
  email = u.email;
  is_global_admin = u.is_global_admin;
  verification_status = u.verification_status;
}

-- `principalByKeycloakID`, with the error that the caller gives to an unknown subject.
unfoldable pub principal_by_keycloak_id : ℕ → ApiError → Action Principal
principal_by_keycloak_id subject unknown = do
  u ← run (get_user_by_keycloak_id subject) unknown
  pure (principal_from_row u)

-- `principalByUserID`
unfoldable pub principal_by_user_id : ℕ → ApiError → Action Principal
principal_by_user_id id unknown = do
  u ← run (get_user_by_id id) unknown
  pure (principal_from_row u)

-- The caller of most requests.
abbrev pub registered_caller : ℕ → Action Principal
registered_caller subject =
    principal_by_keycloak_id subject (new_forbidden_error "account not registered")

unfoldable pub require_global_admin : Principal → Result (Unit {0})
require_global_admin p = require p.is_global_admin (new_forbidden_error "global admin only")

unfoldable pub require_verified : Principal → Result (Unit {0})
require_verified p = require (is_verified p) (new_forbidden_error "account is not verified")

abbrev decide_found : Membership → MembershipRole → Result (Unit {0})
decide_found m need = elim (active m) [
  | false ↦ err (new_forbidden_error "membership not approved")
  | true ↦ require (satisfies m need) (new_forbidden_error "insufficient group role")
]

-- `none` is the membership that is not found.
unfoldable pub decide_group_role :
    Principal → Option Membership → MembershipRole → Result (Unit {0})
decide_group_role p m need = elim p.is_global_admin [
  | true ↦ ok tt
  | false ↦ elim m [
    | none ↦ err (new_forbidden_error "not a member of this group")
    | some m ↦ decide_found m need
  ]
]

abbrev pub membership_of : Option MembershipRow → Option Membership
membership_of none = none
membership_of (some m) = some (record { role = m.role; status = m.status })

unfoldable pub require_group_role : Principal → ℕ → MembershipRole → Action (Unit {0})
require_group_role p group_id need = do
  m ← try_run (get_membership group_id p.user_id)
  lift (decide_group_role p (membership_of m) need)
