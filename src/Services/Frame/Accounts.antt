-- ===== src/Services/Frame/Accounts.antt =====
-- The requests of services/verification.go, registration.go and nudges.go, and the deletion of an
-- account in services/admin.go: a property of the groups, the memberships and the payments stays.
use expense_splitter.Prelude.{ℕ, refl, List}
use expense_splitter.Types.ApiError.{new_server_error}
use expense_splitter.Types.Membership.{group_admin}
use expense_splitter.Types.Principal.{
  Principal, VerificationStatus, registered, pending_verification, verified, rejected,
}
use expense_splitter.Store.{PaymentRow, Db}
use expense_splitter.Store.Action.{Action, pure, run, ◌>>=◌}
use expense_splitter.Store.Hoare.{Pred, Triple, Triple-bind}
use expense_splitter.Store.Users.{set_user_verification_pending}
use expense_splitter.Services.Authz.{principal_from_row}
use expense_splitter.Services.Verification.{ask_verification, submit_verification, set_verification}
use expense_splitter.Services.Reads.{principal_by_keycloak_id-Reads, require_group_role-Reads}
use Prim.Native.String.{String}
use expense_splitter.Prelude.{
  ℕ, refl, List, [], ◌∷◌, Option, none, some, Bool-cases, Option-cases, inl, inr,
}
use expense_splitter.Prelude.Text.{same_text}
use expense_splitter.Types.Principal.{Principal}
use expense_splitter.Types.Membership.{group_admin}
use expense_splitter.Types.Nudge.{Nudge, NudgeRunResult}
use expense_splitter.Store.{UserRow, PaymentRow, Db}
use expense_splitter.Store.Action.{Action, pure}
use expense_splitter.Store.Hoare.{Pred, Triple, Triple-bind, Triple-asks}
use expense_splitter.Store.Users.{
  get_user_by_keycloak_id, get_user_admin_view, count_user_memberships,
}
use expense_splitter.Store.Nudges.{list_stale_payments}
use expense_splitter.Services.Authz.{principal_from_row}
use expense_splitter.Services.Registration.{register, register_subject, link_or_create}
use expense_splitter.Services.Admin.{admin_delete_user}
use expense_splitter.Services.Nudges.{nudge_for, send_nudge, nudge_payment, nudge_all, run_nudges}
use expense_splitter.Services.Proofs.{put_object}
use expense_splitter.Services.Reads.{principal_by_keycloak_id-Reads, require_group_role-Reads}
use expense_splitter.Services.Atomic.Admin.{global_admin_caller-Reads}
use expense_splitter.Services.Frame.{
  Stable, Steady, anywhere, stays, run-Stable, try_run-Stable, write_system_audit-Stable,
  unless-Keeps, if-Keeps, lift-Keeps, done-Keeps, tx-Keeps, update_user-Steady,
  set_user_verification-Steady, link_user_keycloak_id-Steady, create_user-Steady,
  delete_user-Steady, upsert_nudge-Steady,
}

pub put_object-Keeps :
    {P E : Pred} (pe : (db : Db) → P db → E db) (key : _) (image : List ℕ)
    → Triple P (put_object key image) (λ u. P) E
unfolding put_object
put_object-Keeps pe key image = record {
  holds = λ env w p. elim (Bool-cases env.store_enabled) [
    | inl on ↦ rw on (elim (Option-cases (env.put_object key image w.bucket)) [
      | inl refused ↦ rw refused (pe w.db p)
      | inr (bucket, stored) ↦ rw stored p
    ])
    | inr off ↦ rw off (pe w.db p)
  ];
}

module _ {P : Pred} (stable : Stable Steady P) where
  ask-Keeps :
      (p : Principal)
      → Triple P
          (do
            u ← run (set_user_verification_pending p.user_id) new_server_error
            pure (principal_from_row u))
          (λ a. P)
          P
  unfolding set_user_verification_pending
  ask-Keeps p =
      Triple-bind
        (run-Stable stable (stays _) (set_user_verification_pending p.user_id) _
          (update_user-Steady p.user_id _))
        (λ u. done-Keeps _)

  ask_verification-Keeps :
      (p : Principal) (status : VerificationStatus)
      → Triple P (ask_verification p status) (λ a. P) P
  unfolding ask_verification
  ask_verification-Keeps p registered = ask-Keeps p
  ask_verification-Keeps p rejected = ask-Keeps p
  ask_verification-Keeps p pending_verification = done-Keeps p
  ask_verification-Keeps p verified = record { holds = λ env w h. h }

  pub submit_verification-Keeps : (subject : ℕ) → Triple P (submit_verification subject) (λ a. P) P
  unfolding submit_verification
  submit_verification-Keeps subject =
      Triple-bind (principal_by_keycloak_id-Reads subject _)
        λ p. ask_verification-Keeps p p.verification_status

  pub set_verification-Keeps :
      (subject target : ℕ) (decision : VerificationStatus)
      → Triple P (set_verification subject target decision) (λ a. P) P
  unfolding set_verification
  set_verification-Keeps subject target decision = Triple-bind (unless-Keeps (stays _) _ _) λ u.
      Triple-bind (principal_by_keycloak_id-Reads subject _) λ admin.
        Triple-bind (lift-Keeps (stays _) _) λ u.
          Triple-bind (run-Stable stable (stays _) _ _ (set_user_verification-Steady _ _ _))
            (λ u. done-Keeps _)

  pub admin_delete_user-Keeps :
      (subject user_id : ℕ) → Triple P (admin_delete_user subject user_id) (λ u. P) P
  unfolding admin_delete_user get_user_admin_view count_user_memberships
  admin_delete_user-Keeps subject user_id =
      Triple-bind (global_admin_caller-Reads subject) λ caller.
        Triple-bind (if-Keeps (stays _) _ _) λ u.
          Triple-bind
            (run-Stable stable (stays _) (get_user_admin_view user_id) _
              λ id now db. (refl, refl, refl))
            λ target. Triple-bind (if-Keeps (stays _) _ _) λ u.
              Triple-bind
                (run-Stable stable (stays _) (count_user_memberships user_id) _
                  λ id now db. (refl, refl, refl))
                λ n. Triple-bind (if-Keeps (stays _) _ _) λ u. tx-Keeps (
                  Triple-bind (run-Stable stable (anywhere _) _ _ (delete_user-Steady user_id))
                    λ deleted.
                      Triple-bind (unless-Keeps (anywhere _) _ _)
                        λ u. write_system_audit-Stable stable (anywhere _) _ _ _)

  module _ {E : Pred} where
    known_or-Keeps :
        (known : Option UserRow) (m : Action Principal)
        → Triple P m (λ a. P) E
        → Triple P (elim known [ some u ↦ pure (principal_from_row u) | none ↦ m ]) (λ a. P) E
    known_or-Keeps none m h = h
    known_or-Keeps (some u) m h = done-Keeps _

  link_or_create-Keeps :
      (subject : ℕ) (email : String) → Triple P (link_or_create subject email) (λ a. P) P
  unfolding link_or_create
  link_or_create-Keeps subject email = Triple-asks λ env. tx-Keeps (
      Triple-bind (try_run-Stable stable (anywhere _) _ (link_user_keycloak_id-Steady _ _ _))
        λ linked. known_or-Keeps linked _ (
          Triple-bind (run-Stable stable (anywhere _) _ _ (create_user-Steady _ _ _))
            λ u. done-Keeps _))

  pub register-Keeps :
      (subject : ℕ) (email : String) → Triple P (register (some subject) email) (λ a. P) P
  unfolding register register_subject get_user_by_keycloak_id
  register-Keeps subject email = elim (Bool-cases (same_text email "")) [
    | inl empty ↦ rw empty (record { holds = λ env w p. p })
    | inr given ↦ rw given (
        Triple-bind
          (try_run-Stable stable (stays _) (get_user_by_keycloak_id subject)
            λ id now db. (refl, refl, refl))
          λ known. known_or-Keeps known _ (link_or_create-Keeps subject email))
  ]

  nudge_payment-Keeps :
      (hours : ℕ) (nudge : Option Nudge) (result : NudgeRunResult)
      → Triple P (nudge_payment hours nudge result) (λ a. P) P
  unfolding nudge_payment send_nudge
  nudge_payment-Keeps hours none result = done-Keeps result
  nudge_payment-Keeps hours (some nudge) result =
      Triple-bind (try_run-Stable stable (stays _) _ (upsert_nudge-Steady _ _ _ _))
        λ sent. done-Keeps _

  nudge_all-Keeps :
      (hours : ℕ) (stale : List PaymentRow) (result : NudgeRunResult)
      → Triple P (nudge_all hours stale result) (λ a. P) P
  unfolding nudge_all
  nudge_all-Keeps hours [] result = done-Keeps result
  nudge_all-Keeps hours (p ∷ stale) result =
      Triple-bind (nudge_payment-Keeps hours (nudge_for p p.status) result)
        λ next. nudge_all-Keeps hours stale next

  pub run_nudges-Keeps :
      (subject group_id hours : ℕ) → Triple P (run_nudges subject group_id hours) (λ a. P) P
  unfolding run_nudges list_stale_payments
  run_nudges-Keeps subject group_id hours =
      Triple-bind (principal_by_keycloak_id-Reads subject _) λ caller.
        Triple-bind (require_group_role-Reads caller group_id group_admin) λ u.
          Triple-bind
            (run-Stable stable (stays _) (list_stale_payments group_id hours) _
              λ id now db. (refl, refl, refl))
            λ stale. nudge_all-Keeps hours stale _
