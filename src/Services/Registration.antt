-- ===== src/Services/Registration.antt =====
-- services/registration.go: `Register`. `none` is a token without a subject.
use Prim.Native.String.{String}
use expense_splitter.Prelude.{ℕ, Option, none, some, if◌then◌else◌}
use expense_splitter.Prelude.Text.{same_text}
use expense_splitter.Types.ApiError.{new_bad_request_error, new_conflict_error}
use expense_splitter.Types.Principal.{Principal}
use expense_splitter.Store.Action.{Action, asks, pure, raise, try_run, run, in_tx, ◌>>=◌}
use expense_splitter.Store.Users.{get_user_by_keycloak_id, link_user_keycloak_id, create_user}
use expense_splitter.Services.Authz.{principal_from_row}

-- The transaction: an account that the email names and that nobody has linked is taken over,
-- otherwise a new one is made.
unfoldable pub link_or_create : ℕ → String → Action Principal
link_or_create subject email = asks λ env. in_tx (do
  linked ← try_run (link_user_keycloak_id env.same_email subject email)
  elim linked [
    | some u ↦ pure (principal_from_row u)
    | none ↦ do
      u ←
          run (create_user env.same_email subject email)
            (new_conflict_error "email already registered")
      pure (principal_from_row u)
  ])

unfoldable pub register_subject : ℕ → String → Action Principal
register_subject subject email = do
  known ← try_run (get_user_by_keycloak_id subject)
  elim known [ some u ↦ pure (principal_from_row u) | none ↦ link_or_create subject email ]

unfoldable pub register : Option ℕ → String → Action Principal
register none email = raise (new_bad_request_error "token is missing subject or email")
register (some subject) email =
    if same_text email ""
    then raise (new_bad_request_error "token is missing subject or email")
    else register_subject subject email
