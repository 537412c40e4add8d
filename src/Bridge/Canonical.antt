-- ===== src/Bridge/Canonical.antt =====
-- bridge/src/canonical.rs: the commitments and the digest, as the workflow computes them.
pub mod Agreement
use canton_treasury_dvp.Base.{ℕ, ◌≡◌, refl, List, [], ◌∷◌, Bytes, codes, to_le_bytes, ℤ, to_u64}
use canton_treasury_dvp.Escrow.Canonical.{Operation, concat}

abbrev pub digest_domain : Bytes
digest_domain = codes "canton-treasury-dvp/bridge-digest/v1"

abbrev pub amount_domain : Bytes
amount_domain = codes "canton-treasury-dvp/amount-commitment/v1"

abbrev pub proof_domain : Bytes
proof_domain = codes "canton-treasury-dvp/proof-commitment/v1"

abbrev pub direction_lock : ℕ
direction_lock = 1

abbrev pub direction_cancel : ℕ
direction_cancel = 2

abbrev pub direction_release : ℕ
direction_release = 3

abbrev pub direction_mint : ℕ
direction_mint = 4

module _ (hash : Bytes → Bytes) where
  unfoldable pub sha256 : List Bytes → Bytes
  sha256 parts = hash (concat parts)

  unfoldable pub amount_commitment : ℕ → Bytes → Bytes
  unfolding sha256
  amount_commitment amount blinding = sha256 (amount_domain ∷ to_le_bytes 8 amount ∷ blinding ∷ [])

  unfoldable pub proof_commitment : Bytes → Bytes → Bytes → Bytes → Bytes → Bytes → Bytes
  unfolding sha256
  proof_commitment decryptable auditor_lo auditor_hi equality_ctx validity_ctx range_ctx = sha256 (
      proof_domain ∷ decryptable ∷ auditor_lo ∷ auditor_hi ∷ equality_ctx ∷ validity_ctx ∷ range_ctx
      ∷ [])

abbrev pub digest_parts : Operation → List Bytes
digest_parts o =
    digest_domain
    ∷ o.chain_id
    ∷ o.program_id
    ∷ o.config
    ∷ o.operation
    ∷ (o.direction ∷ [])
    ∷ o.lock_receipt
    ∷ o.destination
    ∷ o.amount_commitment
    ∷ o.zama_reservation
    ∷ o.previous_operation
    ∷ to_le_bytes 8 (to_u64 o.expiry)
    ∷ o.proof_commitment
    ∷ []

unfoldable pub operation_digest : (Bytes → Bytes) → Operation → Bytes
unfolding sha256
operation_digest hash o = sha256 hash (digest_parts o)
