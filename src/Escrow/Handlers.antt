-- ===== src/Escrow/Handlers.antt =====
-- solana/programs/confidential-escrow/src/handlers.rs: the five instructions. A handler returns the
-- ledger that the transaction commits, or the error that rolls it back.
pub mod Loaded
pub mod Approved
pub mod Moved
pub mod Paid
pub mod Locked
use canton_treasury_dvp.Base.{
  ℕ, true, false, none, some, [], ◌∷◌, Bytes, insert, Result, ok, ◌>>=◌, ◌>>◌, require, ok_or,
  bytes_eq, ℤ, ltb_ℤ, ◌==◌, if◌then◌else◌,
}
use canton_treasury_dvp.Escrow.Canonical.{
  direction_cancel, direction_release, receipt_locked, receipt_cancelled, receipt_released,
  proof_commitment, operation_digest, Operation,
}
use canton_treasury_dvp.Escrow.Runtime.{
  Runtime, Error, escrow, wrong_token_program, wrong_mint, wrong_vault, unknown_attester,
  digest_mismatch, proof_commitment_mismatch, expired, invalid_attester_set,
}
use canton_treasury_dvp.Escrow.State.{
  BridgeConfig, LockReceipt, config, receipt, approval, attester_index, config_seed,
  vault_authority_seed, receipt_seed, approval_seed,
}
use canton_treasury_dvp.Escrow.Ed25519.{read_preceding_ed25519}
use canton_treasury_dvp.Escrow.Confidential.{
  require_token_2022, require_confidential_account, parse_transfer_ciphertexts,
  transfer_instruction, confidential_transfer_cpi, apply_pending_cpi, pending_credit_counter,
  TransferCiphertexts, ProofContexts,
}
use canton_treasury_dvp.Escrow.Accounts.{
  Ledger, InitializeContext, LockContext, ApproveContext, MoveContext, check_initialize, check_lock,
  check_approve, check_move,
}
use canton_treasury_dvp.Escrow.Requests.{
  InitializeArgs, LockArgs, ApproveArgs, MovementArgs, distinct_attesters, open_approval,
  add_signer, authorize_mint, check_request, check_movement,
}

-- The status that a movement leaves.
abbrev pub final_status : ℕ → ℕ
final_status direction =
    if direction == direction_cancel then receipt_cancelled else receipt_released

module _ {T : Type 0} (rt : Runtime T) where
  -- The configuration that `initialize` writes.
  abbrev pub initial_config : InitializeContext → InitializeArgs → BridgeConfig
  initial_config ctx args = record {
    chain_id = args.chain_id;
    token_program = ctx.token_program.key;
    mint = ctx.mint.key;
    vault = ctx.vault.key;
    attesters = args.attesters;
    bump = rt.find_bump (config_seed ∷ []);
    vault_authority_bump = rt.find_bump (vault_authority_seed ∷ []);
  }

  unfoldable pub initialize :
      InitializeContext → InitializeArgs → Ledger T → Result Error (Ledger T)
  initialize ctx args ledger = do
    check_initialize rt ledger.accounts ctx
    require_token_2022 rt ctx.token_program.key
    require (distinct_attesters args.attesters) (escrow invalid_attester_set)
    require_confidential_account rt ctx.token_program.key ctx.mint.key
        (some ctx.vault_authority.key) ledger.tokens ctx.vault.key true
    ok (record ledger {
      accounts = insert ctx.config.key (config (initial_config ctx args)) ledger.accounts;
    })

  abbrev pub commitment_of : TransferCiphertexts → ProofContexts → Bytes
  commitment_of t p =
      proof_commitment rt.hash t.decryptable t.auditor_lo t.auditor_hi p.equality p.validity p.range

  -- The receipt that `lock_confidential` writes.
  abbrev pub new_receipt : LockArgs → Bytes → LockReceipt
  new_receipt args lock_proof = record {
    operation = args.operation;
    destination = args.destination;
    amount_commitment = args.amount_commitment;
    zama_reservation = args.zama_reservation;
    previous_operation = args.previous_operation;
    expiry = args.expiry;
    lock_proof_commitment = lock_proof;
    status = receipt_locked;
    bump = rt.find_bump (receipt_seed ∷ args.operation ∷ []);
  }

  unfoldable pub lock_confidential : LockContext → LockArgs → ℤ → Ledger T → Result Error (Ledger T)
  lock_confidential ctx args now ledger = do
    c ← check_lock rt ledger.accounts ctx args.operation
    require (bytes_eq c.mint ctx.mint.key) (escrow wrong_mint)
    require (bytes_eq c.vault ctx.vault.key) (escrow wrong_vault)
    require (bytes_eq c.token_program ctx.token_program.key) (escrow wrong_token_program)
    require (ltb_ℤ now args.expiry) (escrow expired)
    require_confidential_account rt c.token_program c.mint none ledger.tokens ctx.source.key false
    require_confidential_account rt c.token_program c.mint (some ctx.vault_authority.key)
        ledger.tokens ctx.vault.key true
    ciphertexts ← parse_transfer_ciphertexts args.transfer_input
    moved ←
        confidential_transfer_cpi rt ctx.token_program.key ledger.tokens
          (transfer_instruction rt ctx.source.key ctx.mint.key ctx.vault.key ctx.proofs
            ctx.source_authority.key args.transfer_input)
          args.transfer_input []
    pending ← pending_credit_counter rt moved ctx.vault.key
    applied ←
        apply_pending_cpi rt ctx.token_program.key moved ctx.vault.key ctx.vault_authority.key
          pending args.vault_decryptable (vault_authority_seed ∷ (c.vault_authority_bump ∷ []) ∷ [])
    ok (record {
      accounts =
          insert ctx.receipt.key (receipt (new_receipt args (commitment_of ciphertexts ctx.proofs)))
            ledger.accounts;
      tokens = applied;
    })

  -- The digest that the attesters sign for a request on a receipt.
  abbrev pub request_operation : ApproveContext → BridgeConfig → ApproveArgs → Operation
  request_operation ctx c args = record {
    chain_id = c.chain_id;
    program_id = rt.program_id;
    config = ctx.config.key;
    operation = args.operation;
    direction = args.direction;
    lock_receipt = ctx.receipt.key;
    destination = args.destination;
    amount_commitment = args.amount_commitment;
    zama_reservation = args.zama_reservation;
    previous_operation = args.previous_operation;
    expiry = args.expiry;
    proof_commitment = args.proof_commitment;
  }

  unfoldable pub approve_operation :
      ApproveContext → ApproveArgs → ℤ → Ledger T → Result Error (Ledger T)
  approve_operation ctx args now ledger = do
    opened ← check_approve rt ledger.accounts ctx args.operation args.direction
    check_request args opened.receipt now
    let expected = operation_digest rt.hash (request_operation ctx opened.config args)
    signed ← read_preceding_ed25519 rt ctx.instructions_sysvar
    require (bytes_eq signed.digest expected) (escrow digest_mismatch)
    index ← ok_or (attester_index opened.config signed.attester) (escrow unknown_attester)
    a ←
        open_approval opened.approval args expected now
          (rt.find_bump (approval_seed ∷ args.operation ∷ (args.direction ∷ []) ∷ []))
    a' ← add_signer a index
    r ← authorize_mint args.direction a' opened.receipt
    ok (record ledger {
      accounts =
          insert ctx.approval.key (approval a')
            (insert ctx.receipt.key (receipt r) ledger.accounts);
    })

  -- The digest that a movement must have been approved by.
  abbrev pub movement_operation :
      ℕ → MoveContext → BridgeConfig → LockReceipt → MovementArgs → Bytes → Operation
  movement_operation direction ctx c r args computed = record {
    chain_id = c.chain_id;
    program_id = rt.program_id;
    config = ctx.config.key;
    operation = r.operation;
    direction = direction;
    lock_receipt = ctx.receipt.key;
    destination = args.destination;
    amount_commitment = args.amount_commitment;
    zama_reservation = args.zama_reservation;
    previous_operation = args.previous_operation;
    expiry = args.expiry;
    proof_commitment = computed;
  }

  unfoldable pub move_vault_tokens :
      MoveContext → MovementArgs → ℕ → ℤ → Ledger T → Result Error (Ledger T)
  move_vault_tokens ctx args direction now ledger = do
    opened ← check_move rt ledger.accounts ctx
    let c = opened.config
    let r = opened.receipt
    let a = opened.approval
    check_movement direction c r a ctx args now
    require_confidential_account rt c.token_program c.mint (some ctx.vault_authority.key)
        ledger.tokens ctx.vault.key true
    require_confidential_account rt c.token_program c.mint none ledger.tokens ctx.destination.key
        false
    ciphertexts ← parse_transfer_ciphertexts args.transfer_input
    let computed = commitment_of ciphertexts ctx.proofs
    require
        (bytes_eq a.digest
          (operation_digest rt.hash (movement_operation direction ctx c r args computed)))
        (escrow proof_commitment_mismatch)
    moved ←
        confidential_transfer_cpi rt ctx.token_program.key ledger.tokens
          (transfer_instruction rt ctx.vault.key ctx.mint.key ctx.destination.key ctx.proofs
            ctx.vault_authority.key args.transfer_input)
          args.transfer_input (vault_authority_seed ∷ (c.vault_authority_bump ∷ []) ∷ [])
    ok (record {
      accounts = insert ctx.approval.key (approval (record a { consumed = true })) (
          insert ctx.receipt.key (receipt (record r { status = final_status direction }))
            ledger.accounts);
      tokens = moved;
    })

  unfoldable pub cancel_confidential :
      MoveContext → MovementArgs → ℤ → Ledger T → Result Error (Ledger T)
  unfolding move_vault_tokens
  cancel_confidential ctx args = move_vault_tokens ctx args direction_cancel

  unfoldable pub release_confidential :
      MoveContext → MovementArgs → ℤ → Ledger T → Result Error (Ledger T)
  unfolding move_vault_tokens
  release_confidential ctx args = move_vault_tokens ctx args direction_release
