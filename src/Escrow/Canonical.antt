-- ===== src/Escrow/Canonical.antt =====
-- solana/programs/confidential-escrow/src/canonical.rs: the commitments and the digest that the
-- attesters sign. `hashv` hashes the concatenation of its parts by SHA-256, the argument `hash`.
pub mod Binding
use canton_treasury_dvp.Base.{
  ℕ, ◌^◌, Bool, List, [], ◌∷◌, ◌++◌, Bytes, codes, to_le_bytes, ℤ, to_u64, ◌==◌,
}

abbrev pub digest_domain : Bytes
digest_domain = codes "canton-treasury-dvp/bridge-digest/v1"

abbrev pub amount_domain : Bytes
amount_domain = codes "canton-treasury-dvp/amount-commitment/v1"

abbrev pub proof_domain : Bytes
proof_domain = codes "canton-treasury-dvp/proof-commitment/v1"

abbrev pub direction_lock : ℕ
direction_lock = 1

abbrev pub direction_cancel : ℕ
direction_cancel = 2

abbrev pub direction_release : ℕ
direction_release = 3

abbrev pub direction_mint : ℕ
direction_mint = 4

abbrev pub receipt_locked : ℕ
receipt_locked = 1

abbrev pub receipt_mint_authorized : ℕ
receipt_mint_authorized = 2

abbrev pub receipt_cancelled : ℕ
receipt_cancelled = 3

abbrev pub receipt_released : ℕ
receipt_released = 4

unfoldable pub cancel_permitted : ℕ → Bool
cancel_permitted status = status == receipt_locked

unfoldable pub release_permitted : ℕ → Bool
release_permitted status = status == receipt_mint_authorized

-- The input of `hashv`.
abbrev pub concat : List Bytes → Bytes
concat [] = []
concat (p ∷ ps) = p ++ concat ps

module _ (hash : Bytes → Bytes) where
  unfoldable pub hashv : List Bytes → Bytes
  hashv parts = hash (concat parts)

  unfoldable pub amount_commitment : ℕ → Bytes → Bytes
  unfolding hashv
  amount_commitment amount blinding = hashv (amount_domain ∷ to_le_bytes 8 amount ∷ blinding ∷ [])

  unfoldable pub proof_commitment : Bytes → Bytes → Bytes → Bytes → Bytes → Bytes → Bytes
  unfolding hashv
  proof_commitment decryptable auditor_lo auditor_hi equality_ctx validity_ctx range_ctx = hashv (
      proof_domain ∷ decryptable ∷ auditor_lo ∷ auditor_hi ∷ equality_ctx ∷ validity_ctx ∷ range_ctx
      ∷ [])

-- The arguments of `operation_digest`, in its order.
pub record Operation : Type 0 where
  pub chain_id : Bytes
  pub program_id : Bytes
  pub config : Bytes
  pub operation : Bytes
  pub direction : ℕ
  pub lock_receipt : Bytes
  pub destination : Bytes
  pub amount_commitment : Bytes
  pub zama_reservation : Bytes
  pub previous_operation : Bytes
  pub expiry : ℤ
  pub proof_commitment : Bytes

abbrev pub operation_parts : Operation → List Bytes
operation_parts o =
    digest_domain
    ∷ o.chain_id
    ∷ o.program_id
    ∷ o.config
    ∷ o.operation
    ∷ (o.direction ∷ [])
    ∷ o.lock_receipt
    ∷ o.destination
    ∷ o.amount_commitment
    ∷ o.zama_reservation
    ∷ o.previous_operation
    ∷ to_le_bytes 8 (to_u64 o.expiry)
    ∷ o.proof_commitment
    ∷ []

unfoldable pub operation_digest : (Bytes → Bytes) → Operation → Bytes
unfolding hashv
operation_digest hash o = hashv hash (operation_parts o)
