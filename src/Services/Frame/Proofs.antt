-- ===== src/Services/Frame/Proofs.antt =====
-- The side effects of a payment's transition: the proofs of services/payments.go and proofs.go.
use Prim.Native.String.{String}
use expense_splitter.Prelude.{ℕ, refl, List}
use expense_splitter.Store.Action.{Action}
use expense_splitter.Store.Hoare.{Pred, Triple, Triple-bind, Triple-asks}
use expense_splitter.Store.Settlement.{unset_current_proof, create_proof}
use expense_splitter.Services.Payments.{store_text_proof}
use expense_splitter.Services.Proofs.{store_image_proof}
use expense_splitter.Services.Frame.{
  Anywhere, Stable, Steady, anywhere, run-Stable, done-Keeps, create_proof-Steady,
}
use expense_splitter.Services.Frame.Accounts.{put_object-Keeps}

-- A side effect on other tables.
abbrev pub Aside : Action (Unit {0}) → Type 1
Aside side = (P : Pred) → Stable Steady P → Triple P side (λ u. P) Anywhere

pub store_text_proof-Aside : (pid : ℕ) (note : String) → Aside (store_text_proof pid note)
unfolding store_text_proof unset_current_proof
store_text_proof-Aside pid note P stable = Triple-asks λ env.
    Triple-bind
      (run-Stable stable (anywhere P) (unset_current_proof pid) _ λ id now db. (refl, refl, refl))
      λ u.
        Triple-bind (run-Stable stable (anywhere P) (create_proof _) _ (create_proof-Steady _))
          λ u. done-Keeps tt

pub store_image_proof-Aside : (pid : ℕ) (image : List ℕ) → Aside (store_image_proof pid image)
unfolding store_image_proof unset_current_proof
store_image_proof-Aside pid image P stable = Triple-asks λ env.
    Triple-bind (put_object-Keeps (anywhere P) _ image) λ u.
      Triple-bind
        (run-Stable stable (anywhere P) (unset_current_proof pid) _ λ id now db. (refl, refl, refl))
        λ u.
          Triple-bind (run-Stable stable (anywhere P) (create_proof _) _ (create_proof-Steady _))
            λ u. done-Keeps tt
