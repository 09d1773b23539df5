-- ===== src/Types/ApiError.antt =====
-- types/errors.go, and the pair of a value and an `APIError` that a service method returns.
use Prim.Native.String.{String}
use expense_splitter.Prelude.{ℕ, Bool, true, false}

pub record ApiError : Type 0 where
  pub status : ℕ
  pub code : String
  pub message : String

abbrev pub new_api_error : ℕ → String → String → ApiError
new_api_error status code message = record { status = status; code = code; message = message }

abbrev pub new_server_error : ApiError
new_server_error = new_api_error 500 "internal_error" "internal server error"

abbrev pub new_bad_request_error : String → ApiError
new_bad_request_error message = new_api_error 400 "bad_request" message

abbrev pub new_unauthorized_error : String → ApiError
new_unauthorized_error message = new_api_error 401 "unauthorized" message

abbrev pub new_forbidden_error : String → ApiError
new_forbidden_error message = new_api_error 403 "forbidden" message

abbrev pub new_not_found_error : String → ApiError
new_not_found_error message = new_api_error 404 "not_found" message

abbrev pub new_conflict_error : String → ApiError
new_conflict_error message = new_api_error 409 "conflict" message

abbrev pub new_service_unavailable_error : String → ApiError
new_service_unavailable_error message = new_api_error 503 "service_unavailable" message

-- A value, or the error that comes in its place.
pub data Result {ℓ} (A : Type ℓ) : Type ℓ where
  ok : A → Result A
  err : ApiError → Result A

-- `return NewX("...")` unless the test holds.
abbrev pub require : Bool → ApiError → Result (Unit {0})
require true e = ok tt
require false e = err e
