-- ===== src/Escrow/Requests.antt =====
-- solana/programs/confidential-escrow/src/handlers.rs: the arguments of the instructions, and the
-- decisions that the handlers make about them.
use Prim.Native.Nat.{bit_and, bit_or}
use canton_treasury_dvp.Base.{
  ℕ, ◌^◌, Bool, false, ◌&&◌, ◌||◌, not, Bytes, Result, ok, ◌>>◌, require, bytes_eq, ℤ, ltb_ℤ, eqb_ℤ,
  leb, ◌==◌, if◌then◌else◌,
}
use canton_treasury_dvp.Escrow.Canonical.{
  direction_cancel, direction_release, direction_mint, receipt_locked, receipt_mint_authorized,
  receipt_cancelled, receipt_released, cancel_permitted, release_permitted,
}
use canton_treasury_dvp.Escrow.Runtime.{
  Error, escrow, wrong_mint, wrong_destination, wrong_vault, attestation_threshold,
  duplicate_attester, approval_digest_mismatch, approval_consumed, receipt_mismatch,
  invalid_receipt_state, cancel_after_mint, expired, previous_operation_mismatch,
  reservation_mismatch, amount_commitment_mismatch,
}
use canton_treasury_dvp.Escrow.State.{
  Attesters, BridgeConfig, LockReceipt, OperationApproval, distinct_signers,
}
use canton_treasury_dvp.Escrow.Accounts.{MoveContext, zero_digest}

pub record InitializeArgs : Type 0 where
  pub chain_id : Bytes
  pub attesters : Attesters

pub record LockArgs : Type 0 where
  pub operation : Bytes
  pub destination : Bytes
  pub amount_commitment : Bytes
  pub zama_reservation : Bytes
  pub previous_operation : Bytes
  pub expiry : ℤ
  pub transfer_input : Bytes
  pub vault_decryptable : Bytes

pub record ApproveArgs : Type 0 where
  pub operation : Bytes
  pub direction : ℕ
  pub destination : Bytes
  pub amount_commitment : Bytes
  pub zama_reservation : Bytes
  pub previous_operation : Bytes
  pub expiry : ℤ
  pub proof_commitment : Bytes

pub record MovementArgs : Type 0 where
  pub destination : Bytes
  pub amount_commitment : Bytes
  pub zama_reservation : Bytes
  pub previous_operation : Bytes
  pub expiry : ℤ
  pub transfer_input : Bytes

-- The three attesters are different keys.
unfoldable pub distinct_attesters : Attesters → Bool
distinct_attesters s =
    not (bytes_eq s.first s.second)
    && not (bytes_eq s.first s.third)
    && not (bytes_eq s.second s.third)

-- The part of a new approval, or of the replacement of one that expired unused.
unfoldable pub fresh_approval : ApproveArgs → Bytes → ℕ → OperationApproval
fresh_approval args digest bump = record {
  operation = args.operation;
  direction = args.direction;
  digest = digest;
  signer_bitmap = 0;
  consumed = false;
  bump = bump;
  expiry = args.expiry;
}

-- The approval as the signature is added to: a fresh one, or the recorded one if it agrees.
unfoldable pub open_approval :
    OperationApproval → ApproveArgs → Bytes → ℤ → ℕ → Result Error OperationApproval
unfolding fresh_approval
open_approval a args digest now bump =
    let empty = a.signer_bitmap == 0 && bytes_eq a.digest zero_digest in
    let is_expired = not empty && not (ltb_ℤ now a.expiry) in
    if empty || (is_expired && not a.consumed)
    then (require (not a.consumed) (escrow approval_consumed)
        >> ok (fresh_approval args digest bump))
    else (do
      require (not a.consumed) (escrow approval_consumed)
      require (not is_expired) (escrow expired)
      require (bytes_eq a.digest digest) (escrow approval_digest_mismatch)
      require (a.direction == args.direction) (escrow approval_digest_mismatch)
      require (bytes_eq a.operation args.operation) (escrow receipt_mismatch)
      require (eqb_ℤ a.expiry args.expiry) (escrow receipt_mismatch)
      ok a)

-- `signer_bitmap |= 1 << index`, unless the bit is set.
unfoldable pub add_signer : OperationApproval → ℕ → Result Error OperationApproval
add_signer a index = do
  require (bit_and a.signer_bitmap (2 ^ index) == 0) (escrow duplicate_attester)
  ok (record a { signer_bitmap = bit_or a.signer_bitmap (2 ^ index) })

-- The second signature for a mint authorizes it.
unfoldable pub authorize_mint : ℕ → OperationApproval → LockReceipt → Result Error LockReceipt
authorize_mint direction a r =
    if direction == direction_mint && leb 2 (distinct_signers a)
    then (require (r.status == receipt_locked || r.status == receipt_mint_authorized)
          (escrow invalid_receipt_state)
        >> ok (record r { status = receipt_mint_authorized }))
    else ok r

-- The tests of `approve_operation` on the receipt, the expiry and the destination.
unfoldable pub check_request : ApproveArgs → LockReceipt → ℤ → Result Error (Unit {0})
check_request args r now = do
  require
      (args.direction == direction_mint
        || args.direction == direction_cancel
        || args.direction == direction_release)
      (escrow invalid_receipt_state)
  require (bytes_eq r.operation args.operation) (escrow receipt_mismatch)
  require (bytes_eq r.amount_commitment args.amount_commitment) (escrow amount_commitment_mismatch)
  require (bytes_eq r.zama_reservation args.zama_reservation) (escrow reservation_mismatch)
  require (bytes_eq r.previous_operation args.previous_operation)
      (escrow previous_operation_mismatch)
  (if args.direction == direction_mint
      then (require (ltb_ℤ now r.expiry) (escrow expired)
          >> require (eqb_ℤ args.expiry r.expiry) (escrow receipt_mismatch))
      else require (ltb_ℤ now args.expiry) (escrow expired))
  (if args.direction == direction_cancel
      then require (bytes_eq r.destination args.destination) (escrow wrong_destination)
      else ok tt)

-- The tests of `move_vault_tokens` up to the token accounts, for one direction.
unfoldable pub check_movement :
    ℕ
    → BridgeConfig
    → LockReceipt
    → OperationApproval
    → MoveContext
    → MovementArgs
    → ℤ
    → Result Error (Unit {0})
unfolding cancel_permitted release_permitted
check_movement direction c r a ctx args now = do
  require (bytes_eq c.vault ctx.vault.key) (escrow wrong_vault)
  require (bytes_eq c.mint ctx.mint.key) (escrow wrong_mint)
  require (bytes_eq ctx.destination.key args.destination) (escrow wrong_destination)
  require (ltb_ℤ now args.expiry) (escrow expired)
  require (ltb_ℤ now a.expiry) (escrow expired)
  require (eqb_ℤ a.expiry args.expiry) (escrow receipt_mismatch)
  require (not a.consumed) (escrow approval_consumed)
  require (a.direction == direction) (escrow approval_digest_mismatch)
  require (leb 2 (distinct_signers a)) (escrow attestation_threshold)
  require (not (r.status == receipt_cancelled)) (escrow invalid_receipt_state)
  require (not (r.status == receipt_released)) (escrow invalid_receipt_state)
  (if direction == direction_cancel
      then (require (not (r.status == receipt_mint_authorized)) (escrow cancel_after_mint)
          >> require (cancel_permitted r.status) (escrow invalid_receipt_state))
      else require (release_permitted r.status) (escrow invalid_receipt_state))
  require (bytes_eq r.amount_commitment args.amount_commitment) (escrow amount_commitment_mismatch)
  require (bytes_eq r.zama_reservation args.zama_reservation) (escrow reservation_mismatch)
  require (bytes_eq r.previous_operation args.previous_operation)
      (escrow previous_operation_mismatch)
  (if direction == direction_cancel
      then require (bytes_eq r.destination args.destination) (escrow wrong_destination)
      else ok tt)
