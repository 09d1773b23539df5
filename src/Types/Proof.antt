-- ===== src/Types/Proof.antt =====
-- types/proof.go, and the key of services/proofs.go under which an image is stored.
use expense_splitter.Prelude.{ℕ}

pub data ProofType : Type 0 where
  image_proof text_proof : ProofType

-- `fmt.Sprintf("proofs/%s/%s", paymentID, hash)`
pub record StorageKey : Type 0 where
  pub payment_id : ℕ
  pub hash : ℕ
