-- ===== src/Services/Verification.antt =====
-- services/verification.go: the verification of an account.
use expense_splitter.Prelude.{ℕ, Bool, true, false}
use expense_splitter.Types.ApiError.{
  new_bad_request_error, new_forbidden_error, new_not_found_error, new_conflict_error,
}
use expense_splitter.Types.Principal.{
  Principal, VerificationStatus, pending_verification, verified, rejected,
}
use expense_splitter.Store.Action.{Action, pure, lift, raise, raise_unless, run, exec, ◌>>=◌, ◌>>◌}
use expense_splitter.Store.Users.{set_user_verification_pending, set_user_verification}
use expense_splitter.Services.Authz.{
  principal_by_keycloak_id, principal_from_row, require_global_admin,
}

-- The `switch p.VerificationStatus` and what follows.
unfoldable pub ask_verification : Principal → VerificationStatus → Action Principal
ask_verification p pending_verification = pure p
ask_verification p verified = raise (new_conflict_error "account already verified")
ask_verification p _ = do
  u ← exec (set_user_verification_pending p.user_id)
  pure (principal_from_row u)

unfoldable pub submit_verification : ℕ → Action Principal
submit_verification subject = do
  p ← principal_by_keycloak_id subject (new_not_found_error "account not registered")
  ask_verification p p.verification_status

abbrev is_decision : VerificationStatus → Bool
is_decision verified = true
is_decision rejected = true
is_decision _ = false

unfoldable pub set_verification : ℕ → ℕ → VerificationStatus → Action Principal
set_verification actor target decision = do
  raise_unless (is_decision decision)
      (new_bad_request_error "decision must be verified or rejected")
  admin ← principal_by_keycloak_id actor (new_forbidden_error "caller is not provisioned")
  lift (require_global_admin admin)
  u ←
      run (set_user_verification decision admin.user_id target)
        (new_not_found_error "user not found")
  pure (principal_from_row u)
