-- ===== src/Services/Proofs.antt =====
-- services/proofs.go: proofs that are images, and who may see a proof. The object store is that of
-- storage/storage.go, called through the environment.
use Prim.Native.String.{String}
use expense_splitter.Prelude.{ℕ, Bool, ◌||◌, Option, none, some, List, ◌==◌, length, if◌then◌else◌}
use expense_splitter.Prelude.Text.{same_text}
use expense_splitter.Types.ApiError.{
  ok, err, new_server_error, new_bad_request_error, new_forbidden_error, new_not_found_error,
  new_conflict_error,
}
use expense_splitter.Types.Proof.{StorageKey, ProofType, image_proof, text_proof}
use expense_splitter.Payment.{submit_proof}
use expense_splitter.Store.{PaymentRow, ProofRow}
use expense_splitter.Store.Action.{
  Action, asks, pure, raise_unless, or_raise, try_run, run, exec, ◌>>=◌, ◌>>◌,
}
use expense_splitter.Store.Memberships.{get_membership}
use expense_splitter.Store.Settlement.{
  get_payment, unset_current_proof, create_proof, get_current_proof,
}
use expense_splitter.Services.Authz.{registered_caller}
use expense_splitter.Services.Payments.{transition_payment, is_approved_admin}

abbrev answer_put : Option ℕ → Action (Unit {0})
answer_put none env w = (err new_server_error, w)
answer_put (some bucket) env w = (ok tt, record w { bucket = bucket })

-- `Client.Put`. The transaction of the database does not cover the bucket.
unfoldable pub put_object : StorageKey → List ℕ → Action (Unit {0})
put_object key image env w =
    if env.store_enabled
    then answer_put (env.put_object key image w.bucket) env w
    else (err new_server_error, w)

-- `Client.Get`
unfoldable pub get_object : StorageKey → Action (List ℕ)
get_object key env w =
    if env.store_enabled
    then or_raise new_server_error (env.get_object key w.bucket) env w
    else (err new_server_error, w)

-- The types that `sniffImage` takes for an image.
abbrev pub is_image_type : String → Bool
is_image_type content_type =
    same_text content_type "image/jpeg"
    || same_text content_type "image/png"
    || same_text content_type "image/gif"
    || same_text content_type "image/webp"

-- The side effect of `SubmitImageProof`.
unfoldable pub store_image_proof : ℕ → List ℕ → Action (Unit {0})
store_image_proof payment_id image = asks λ env. do
  let key : StorageKey = record { payment_id = payment_id; hash = env.sha256 image }
  put_object key image
  exec (unset_current_proof payment_id)
  exec (
      create_proof (record {
        payment_id = payment_id;
        proof_type = image_proof;
        sha256 = some (env.sha256 image);
        byte_size = some (length image);
        note = none;
        storage_key = some key;
      }))
  pure tt

-- The message of the refusal names the detected type; the model leaves that name out.
unfoldable pub submit_image_proof : ℕ → ℕ → List ℕ → Action PaymentRow
submit_image_proof subject payment_id image = asks λ env. do
  raise_unless (is_image_type (env.detect_content_type image))
      (new_bad_request_error "file is not a supported image")
  transition_payment subject payment_id submit_proof (store_image_proof payment_id image)

-- `requireProofViewer`
unfoldable pub require_proof_viewer : ℕ → ℕ → Action (Unit {0})
require_proof_viewer subject payment_id = do
  caller ← registered_caller subject
  p ← run (get_payment payment_id) (new_not_found_error "payment not found")
  if caller.is_global_admin
        || (p.from_user_id == caller.user_id)
        || (p.to_user_id == caller.user_id)
      then pure tt
      else (do
        m ← try_run (get_membership p.group_id caller.user_id)
        raise_unless (is_approved_admin m)
            (new_forbidden_error "you are not a participant in this payment"))

-- The proof without its storage key, which the view leaves out.
unfoldable pub get_proof : ℕ → ℕ → Action ProofRow
get_proof subject payment_id = do
  require_proof_viewer subject payment_id
  p ←
      run (get_current_proof payment_id)
        (new_not_found_error "no proof has been submitted for this payment")
  pure (record p { storage_key = none })

abbrev image_key : ProofType → Option StorageKey → Option StorageKey
image_key image_proof key = key
image_key text_proof key = none

-- The image and the type that is detected in it.
unfoldable pub get_proof_image : ℕ → ℕ → Action (List ℕ × String)
get_proof_image subject payment_id = asks λ env. do
  require_proof_viewer subject payment_id
  p ←
      run (get_current_proof payment_id)
        (new_not_found_error "no proof has been submitted for this payment")
  key ←
      or_raise (new_conflict_error "the proof is a text note, not an image")
        (image_key p.proof_type p.storage_key)
  image ← get_object key
  pure (image, env.detect_content_type image)
