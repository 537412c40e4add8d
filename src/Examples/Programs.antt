-- ===== src/Examples/Programs.antt =====
-- The theorems on the program, for the operation of Examples/Setting.antt.
use canton_treasury_dvp.Base.{
  ℕ, ◌+◌, ◌≤◌, ◌≡◌, refl, some, [], ◌∷◌, bytes_eq, lookup, insert, to_le_bytes, from_le_bytes,
  Result, ok, pos, inr,
}
use canton_treasury_dvp.Escrow.Canonical.{
  hashv, proof_commitment, operation_digest, cancel_permitted, release_permitted, direction_mint,
  direction_release, receipt_locked, receipt_mint_authorized, receipt_released,
}
use canton_treasury_dvp.Escrow.Confidential.{
  parse_transfer_ciphertexts, require_token_2022, require_confidential_account,
  transfer_instruction, confidential_transfer_cpi, apply_pending_cpi, pending_credit_counter,
}
use canton_treasury_dvp.Escrow.Ed25519.{
  range_in_data, ranges_overlap, read_offsets, check_offsets, parse_ed25519_instruction,
  read_preceding_ed25519,
}
use canton_treasury_dvp.Escrow.Runtime.{Error}
use canton_treasury_dvp.Escrow.Ed25519.Layout.{encode}
use canton_treasury_dvp.Escrow.Accounts.{
  Ledger, load_config, check_initialize, check_lock, check_approve, check_move,
}
use canton_treasury_dvp.Escrow.Handlers.{
  initialize, lock_confidential, approve_operation, move_vault_tokens,
}
use canton_treasury_dvp.Escrow.Handlers.Paid.{Paid, move_vault_tokens-Paid}
use canton_treasury_dvp.Escrow.Requests.{
  distinct_attesters, fresh_approval, open_approval, add_signer, authorize_mint, check_request,
  check_movement,
}
use canton_treasury_dvp.Escrow.State.{
  LockReceipt, receipt, attester_index, count_ones, distinct_signers,
}
use canton_treasury_dvp.Escrow.Program.{Event, execute, step, run, settle, approves}
use canton_treasury_dvp.Escrow.Program.Attestations.{Inv, attestations, record_event}
use canton_treasury_dvp.Escrow.Program.Attestations.Events.{step-Inv, start-Inv}
use canton_treasury_dvp.Escrow.Program.Evolution.{Evolves, step-Evolves}
use canton_treasury_dvp.Escrow.Program.Lifecycle.{
  Holds, run-Holds, run_keeps_final, pays_at_most_once,
}
use canton_treasury_dvp.Escrow.Program.Payouts.{held, tally, moves_in, moves_out, run_conserves}
use canton_treasury_dvp.Escrow.Program.Threshold.{MovementSigned, fresh_ledger, movement_is_signed}
use canton_treasury_dvp.Escrow.Program.Minted.{IsMintRequest, mint_is_signed}
use canton_treasury_dvp.Examples.Setting.{
  runtime, key, operation, proof, config_at, signed_by, request, at_ten, initialize_call,
  release_context, release_args, until_mint, until_release, whole_operation, receipt_at,
}

abbrev pub start : Ledger ℕ
start = fresh_ledger runtime 0

abbrev released : Result Error (Ledger ℕ)
released =
    move_vault_tokens runtime release_context release_args direction_release (pos 10)
      (run runtime start until_release)

release_succeeds : released ≡ ok (settle runtime start released)
unfolding run step execute move_vault_tokens initialize lock_confidential approve_operation
    check_initialize check_lock check_approve check_move load_config lookup insert bytes_eq
    to_le_bytes from_le_bytes hashv proof_commitment operation_digest cancel_permitted
    release_permitted parse_transfer_ciphertexts require_token_2022 require_confidential_account
    transfer_instruction confidential_transfer_cpi apply_pending_cpi pending_credit_counter
    range_in_data ranges_overlap read_offsets check_offsets parse_ed25519_instruction
    read_preceding_ed25519 encode distinct_attesters fresh_approval open_approval add_signer
    authorize_mint check_request check_movement attester_index count_ones distinct_signers
release_succeeds = refl

movement_is_signed_example :
    MovementSigned runtime
      (run runtime start until_release)
      (attestations runtime start until_release [])
      release_context
      release_args
      direction_release
movement_is_signed_example =
    movement_is_signed runtime 0 until_release release_context release_args direction_release
      (pos 10) (settle runtime start released) release_succeeds

-- The second signature for the mint.
abbrev second_signature : Event ℕ
second_signature = at_ten (approves (signed_by 2 direction_mint) (request direction_mint))

abbrev pub receipt_of_status : ℕ → LockReceipt
receipt_of_status s = record {
  operation = operation;
  destination = key 14;
  amount_commitment = key 41;
  zama_reservation = key 42;
  previous_operation = key 43;
  expiry = pos 1000;
  lock_proof_commitment = proof;
  status = s;
  bump = 255;
}

locked_before :
    lookup receipt_at (run runtime start until_mint).accounts
    ≡ some (receipt (receipt_of_status receipt_locked))
unfolding run step execute move_vault_tokens initialize lock_confidential approve_operation
    check_initialize check_lock check_approve check_move load_config lookup insert bytes_eq
    to_le_bytes from_le_bytes hashv proof_commitment operation_digest cancel_permitted
    release_permitted parse_transfer_ciphertexts require_token_2022 require_confidential_account
    transfer_instruction confidential_transfer_cpi apply_pending_cpi pending_credit_counter
    range_in_data ranges_overlap read_offsets check_offsets parse_ed25519_instruction
    read_preceding_ed25519 encode distinct_attesters fresh_approval open_approval add_signer
    authorize_mint check_request check_movement attester_index count_ones distinct_signers
locked_before = refl

authorized_after :
    lookup receipt_at (step runtime (run runtime start until_mint) second_signature).accounts
    ≡ some (receipt (receipt_of_status receipt_mint_authorized))
unfolding run step execute move_vault_tokens initialize lock_confidential approve_operation
    check_initialize check_lock check_approve check_move load_config lookup insert bytes_eq
    to_le_bytes from_le_bytes hashv proof_commitment operation_digest cancel_permitted
    release_permitted parse_transfer_ciphertexts require_token_2022 require_confidential_account
    transfer_instruction confidential_transfer_cpi apply_pending_cpi pending_credit_counter
    range_in_data ranges_overlap read_offsets check_offsets parse_ed25519_instruction
    read_preceding_ed25519 encode distinct_attesters fresh_approval open_approval add_signer
    authorize_mint check_request check_movement attester_index count_ones distinct_signers
authorized_after = refl

mint_is_signed_example :
    IsMintRequest runtime (run runtime start until_mint) until_mint 0 second_signature receipt_at
mint_is_signed_example =
    mint_is_signed runtime 0 until_mint second_signature receipt_at
      (receipt_of_status receipt_locked) (receipt_of_status receipt_mint_authorized) locked_before
      refl authorized_after refl

pays_at_most_once_example : tally runtime receipt_at moves_out start whole_operation ≤ 1
pays_at_most_once_example = pays_at_most_once runtime receipt_at start whole_operation

run_conserves_example :
    tally runtime receipt_at moves_out start whole_operation
      + held (lookup receipt_at (run runtime start whole_operation).accounts)
    ≡ tally runtime receipt_at moves_in start whole_operation
      + held (lookup receipt_at start.accounts)
run_conserves_example = run_conserves runtime receipt_at start whole_operation

-- A ledger with one receipt.
abbrev with_receipt : ℕ → Ledger ℕ
with_receipt s = record { accounts = (receipt_at, receipt (receipt_of_status s)) ∷ []; tokens = 0 }

receipt_stands :
    (s : ℕ) → lookup receipt_at (with_receipt s).accounts ≡ some (receipt (receipt_of_status s))
unfolding lookup bytes_eq
receipt_stands s = refl

run-Holds_example :
    Holds
      (receipt_of_status receipt_locked)
      (lookup receipt_at (run runtime (with_receipt receipt_locked) whole_operation).accounts)
run-Holds_example =
    run-Holds runtime receipt_at (receipt_of_status receipt_locked) (with_receipt receipt_locked)
      whole_operation (receipt_stands receipt_locked)

run_keeps_final_example :
    lookup receipt_at (run runtime (with_receipt receipt_released) whole_operation).accounts
    ≡ some (receipt (receipt_of_status receipt_released))
run_keeps_final_example =
    run_keeps_final runtime receipt_at (receipt_of_status receipt_released)
      (with_receipt receipt_released) whole_operation (receipt_stands receipt_released) (inr refl)

step-Evolves_example :
    Evolves
      (lookup config_at start.accounts)
      (lookup config_at (step runtime start (at_ten initialize_call)).accounts)
step-Evolves_example = step-Evolves runtime config_at start (at_ten initialize_call)

step-Inv_example :
    Inv runtime
      (step runtime start (at_ten initialize_call)).accounts
      (record_event runtime start (at_ten initialize_call) [])
step-Inv_example = step-Inv runtime start (at_ten initialize_call) [] (start-Inv runtime)

move_vault_tokens-Paid_example :
    Paid runtime release_context release_args direction_release
      (pos 10)
      (run runtime start until_release)
      (settle runtime start released)
move_vault_tokens-Paid_example =
    move_vault_tokens-Paid runtime release_context release_args direction_release (pos 10)
      (run runtime start until_release) (settle runtime start released) release_succeeds
