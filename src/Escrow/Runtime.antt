-- ===== src/Escrow/Runtime.antt =====
-- What the escrow program calls and does not implement: SHA-256, program addresses, and the
-- Token-2022 program with the state `T` of its accounts. Also the errors of
-- solana/programs/confidential-escrow/src/errors.rs and those of the Anchor framework.
use canton_treasury_dvp.Base.{ℕ, Bool, Option, List, Bytes}

pub data EscrowError : Type 0 where
  wrong_token_program wrong_mint wrong_source wrong_destination wrong_vault : EscrowError
  wrong_vault_authority confidential_config non_confidential_credits_enabled : EscrowError
  wrong_transfer_instruction inline_proofs_forbidden attestation_threshold : EscrowError
  unknown_attester duplicate_attester missing_ed25519 invalid_ed25519_layout : EscrowError
  digest_mismatch approval_digest_mismatch approval_consumed receipt_mismatch : EscrowError
  invalid_receipt_state cancel_after_mint proof_commitment_mismatch expired : EscrowError
  wrong_bridge_binding previous_operation_mismatch reservation_mismatch : EscrowError
  amount_commitment_mismatch invalid_attester_set : EscrowError

-- The constraints of an `#[derive(Accounts)]` struct, and a call that the token program refuses.
pub data Error : Type 0 where
  escrow : EscrowError → Error
  account_not_signer constraint_mut constraint_seeds account_not_initialized : Error
  account_discriminator_mismatch account_in_use instruction_index : Error
  invocation_failed : Error

pub record AccountMeta : Type 0 where
  pub pubkey : Bytes
  pub is_signer : Bool
  pub is_writable : Bool

pub record Instruction : Type 0 where
  pub program_id : Bytes
  pub accounts : List AccountMeta
  pub input : Bytes

-- The fields of the confidential transfer extension that the program reads.
pub record ConfidentialTransferAccount : Type 0 where
  pub allow_non_confidential_credits : Bool
  pub pending_balance_credit_counter : ℕ

pub record TokenAccount : Type 0 where
  pub mint : Bytes
  pub owner : Bytes
  pub confidential : Option ConfidentialTransferAccount

pub record Runtime (T : Type 0) : Type 0 where
  pub hash : Bytes → Bytes
  pub program_id : Bytes
  pub token_2022 : Bytes
  pub ed25519_program : Bytes
  pub instructions_id : Bytes
  -- `Pubkey::create_program_address` of seeds and a bump, and the bump that
  -- `Pubkey::find_program_address` finds.
  pub create_address : List Bytes → ℕ → Bytes
  pub find_bump : List Bytes → ℕ
  -- The program that owns an account, and `PodStateWithExtensions::unpack` of its contents.
  pub account_owner : T → Bytes → Bytes
  pub unpack : T → Bytes → Option TokenAccount
  -- `invoke_signed`, with the seeds of the signing program address; none for `invoke`.
  pub invoke : T → Instruction → List Bytes → Option T
