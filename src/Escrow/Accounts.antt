-- ===== src/Escrow/Accounts.antt =====
-- The account checks that `#[derive(Accounts)]` generates for the structs at the end of
-- solana/programs/confidential-escrow/src/handlers.rs. Rent and the system program are left out.
use canton_treasury_dvp.Base.{
  ℕ, Bool, false, Option, none, some, List, [], ◌∷◌, Bytes, Dict, lookup, Result, ok, err, ◌>>=◌,
  ◌>>◌, require, ok_or, bytes_eq, replicate, pos,
}
use canton_treasury_dvp.Escrow.Runtime.{
  Runtime, Error, account_not_signer, constraint_mut, constraint_seeds, account_not_initialized,
  account_discriminator_mismatch, account_in_use,
}
use canton_treasury_dvp.Escrow.Confidential.{ProofContexts}
use canton_treasury_dvp.Escrow.Ed25519.{Sysvar}
use canton_treasury_dvp.Escrow.State.{
  Account, config, receipt, approval, BridgeConfig, LockReceipt, OperationApproval, config_seed,
  vault_authority_seed, receipt_seed, approval_seed,
}

-- An account as the transaction names it.
pub record AccountInfo : Type 0 where
  pub key : Bytes
  pub is_signer : Bool
  pub is_writable : Bool

-- The accounts of the program by address, and those of the token program.
pub record Ledger (T : Type 0) : Type 0 where
  pub accounts : Dict Account
  pub tokens : T

abbrev pub as_config : Account → Result Error BridgeConfig
as_config (config c) = ok c
as_config (receipt r) = err account_discriminator_mismatch
as_config (approval a) = err account_discriminator_mismatch

abbrev pub as_receipt : Account → Result Error LockReceipt
as_receipt (config c) = err account_discriminator_mismatch
as_receipt (receipt r) = ok r
as_receipt (approval a) = err account_discriminator_mismatch

abbrev pub as_approval : Account → Result Error OperationApproval
as_approval (config c) = err account_discriminator_mismatch
as_approval (receipt r) = err account_discriminator_mismatch
as_approval (approval a) = ok a

abbrev pub load : Dict Account → Bytes → Result Error Account
load accounts key = ok_or (lookup key accounts) account_not_initialized

-- `[0u8; 32]`
abbrev pub zero_digest : Bytes
zero_digest = replicate 32 0

-- A fresh account has only zero bytes.
abbrev pub zeroed_approval : OperationApproval
zeroed_approval = record {
  operation = zero_digest;
  direction = 0;
  digest = zero_digest;
  signer_bitmap = 0;
  consumed = false;
  bump = 0;
  expiry = pos 0;
}

-- `init_if_needed`
abbrev pub load_or_init : Option Account → Result Error OperationApproval
load_or_init none = ok zeroed_approval
load_or_init (some a) = as_approval a

-- `init`
abbrev pub require_unused : Dict Account → Bytes → Result Error (Unit {0})
require_unused accounts key = elim (lookup key accounts) [
  | none ↦ ok tt
  | some _ ↦ err account_in_use
]

abbrev pub require_signer : AccountInfo → Result Error (Unit {0})
require_signer a = require a.is_signer account_not_signer

abbrev pub require_mut : AccountInfo → Result Error (Unit {0})
require_mut a = require a.is_writable constraint_mut

module _ {T : Type 0} (rt : Runtime T) where
  -- `seeds = [...], bump = bump`
  abbrev pub require_seeds : Bytes → List Bytes → ℕ → Result Error (Unit {0})
  require_seeds key seeds bump =
      require (bytes_eq key (rt.create_address seeds bump)) constraint_seeds

  -- `seeds = [...], bump`
  abbrev pub require_found : Bytes → List Bytes → Result Error (Unit {0})
  require_found key seeds = require_seeds key seeds (rt.find_bump seeds)

  unfoldable pub load_config : Dict Account → Bytes → Result Error BridgeConfig
  load_config accounts key = do
    c ← load accounts key >>= as_config
    require_seeds key (config_seed ∷ []) c.bump
    ok c

pub record InitializeContext : Type 0 where
  pub payer : AccountInfo
  pub config : AccountInfo
  pub mint : AccountInfo
  pub vault : AccountInfo
  pub vault_authority : AccountInfo
  pub token_program : AccountInfo

pub record LockContext : Type 0 where
  pub source_authority : AccountInfo
  pub config : AccountInfo
  pub receipt : AccountInfo
  pub payer : AccountInfo
  pub source : AccountInfo
  pub vault : AccountInfo
  pub mint : AccountInfo
  pub vault_authority : AccountInfo
  pub proofs : ProofContexts
  pub token_program : AccountInfo

pub record ApproveContext : Type 0 where
  pub payer : AccountInfo
  pub config : AccountInfo
  pub receipt : AccountInfo
  pub approval : AccountInfo
  pub instructions_sysvar : Sysvar

pub record MoveContext : Type 0 where
  pub config : AccountInfo
  pub receipt : AccountInfo
  pub approval : AccountInfo
  pub vault : AccountInfo
  pub destination : AccountInfo
  pub mint : AccountInfo
  pub vault_authority : AccountInfo
  pub proofs : ProofContexts
  pub token_program : AccountInfo

-- The program accounts that an instruction has loaded.
pub record Opened : Type 0 where
  pub config : BridgeConfig
  pub receipt : LockReceipt
  pub approval : OperationApproval

module _ {T : Type 0} (rt : Runtime T) where
  unfoldable pub check_initialize : Dict Account → InitializeContext → Result Error (Unit {0})
  check_initialize accounts ctx = do
    require_mut ctx.payer
    require_signer ctx.payer
    require_found rt ctx.config.key (config_seed ∷ [])
    require_unused accounts ctx.config.key
    require_found rt ctx.vault_authority.key (vault_authority_seed ∷ [])

  unfoldable pub check_lock : Dict Account → LockContext → Bytes → Result Error BridgeConfig
  check_lock accounts ctx operation = do
    require_signer ctx.source_authority
    c ← load_config rt accounts ctx.config.key
    require_found rt ctx.receipt.key (receipt_seed ∷ operation ∷ [])
    require_unused accounts ctx.receipt.key
    require_mut ctx.payer
    require_signer ctx.payer
    require_mut ctx.source
    require_mut ctx.vault
    require_seeds rt ctx.vault_authority.key (vault_authority_seed ∷ []) c.vault_authority_bump
    ok c

  unfoldable pub check_approve : Dict Account → ApproveContext → Bytes → ℕ → Result Error Opened
  check_approve accounts ctx operation direction = do
    require_mut ctx.payer
    require_signer ctx.payer
    c ← load_config rt accounts ctx.config.key
    r ← load accounts ctx.receipt.key >>= as_receipt
    require_mut ctx.receipt
    require_seeds rt ctx.receipt.key (receipt_seed ∷ operation ∷ []) r.bump
    require_found rt ctx.approval.key (approval_seed ∷ operation ∷ (direction ∷ []) ∷ [])
    a ← load_or_init (lookup ctx.approval.key accounts)
    ok (record { config = c; receipt = r; approval = a })

  unfoldable pub check_move : Dict Account → MoveContext → Result Error Opened
  check_move accounts ctx = do
    c ← load_config rt accounts ctx.config.key
    r ← load accounts ctx.receipt.key >>= as_receipt
    require_mut ctx.receipt
    require_seeds rt ctx.receipt.key (receipt_seed ∷ r.operation ∷ []) r.bump
    a ← load accounts ctx.approval.key >>= as_approval
    require_mut ctx.approval
    require_seeds rt ctx.approval.key (approval_seed ∷ r.operation ∷ (a.direction ∷ []) ∷ []) a.bump
    require_mut ctx.vault
    require_mut ctx.destination
    require_seeds rt ctx.vault_authority.key (vault_authority_seed ∷ []) c.vault_authority_bump
    ok (record { config = c; receipt = r; approval = a })
