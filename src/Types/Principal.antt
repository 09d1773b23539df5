-- ===== src/Types/Principal.antt =====
-- types/verification.go and types/principal.go.
use Prim.Native.String.{String}
use expense_splitter.Prelude.{ℕ, Bool, true, false}

pub data VerificationStatus : Type 0 where
  registered pending_verification verified rejected : VerificationStatus

pub record Principal : Type 0 where
  pub user_id : ℕ
  pub email : String
  pub is_global_admin : Bool
  pub verification_status : VerificationStatus

abbrev is_verified_status : VerificationStatus → Bool
is_verified_status verified = true
is_verified_status _ = false

-- `Principal.IsVerified`
abbrev pub is_verified : Principal → Bool
is_verified p = is_verified_status p.verification_status

abbrev pub same_verification : VerificationStatus → VerificationStatus → Bool
same_verification registered registered = true
same_verification pending_verification pending_verification = true
same_verification verified verified = true
same_verification rejected rejected = true
same_verification _ _ = false
