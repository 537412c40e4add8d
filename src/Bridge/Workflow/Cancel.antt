-- ===== src/Bridge/Workflow/Cancel.antt =====
-- bridge/src/workflow.rs: the cancellation of a lock, and the recovery of an operation whose deadline
-- has passed. The wait for the deadline runs on fuel.
pub mod Deadline
use canton_treasury_dvp.Base.{
  [], ℕ, zero, suc, replicate, Bool, true, false, ◌&&◌, not, Option, none, some, Bytes, Result, ok,
  err, ℤ, pos, codes, ltb, ◌==◌,
}
use canton_treasury_dvp.Escrow.Canonical.{Operation}
use canton_treasury_dvp.Bridge.Units.{Text}
use canton_treasury_dvp.Bridge.Canonical.{
  direction_cancel, direction_mint, operation_digest, proof_commitment,
}
use canton_treasury_dvp.Bridge.Journal.{Step, Journal, cancelled}
use canton_treasury_dvp.Bridge.Recovery.{
  is_status, receipt_locked, receipt_cancelled, receipt_mint_authorized, receipt_released,
  approval_expired_on_chain,
}
use canton_treasury_dvp.Bridge.Workflow.{
  Services, Options, Context, TransferProofs, Movement, Run, Act, Sent, Failure, movement,
  apply_pending, refused, ◌>>=◌, ◌>>◌, return, ask, ensure, get_journal, send, stop_here,
  read_receipt_status, chain_unix_timestamp,
}
use canton_treasury_dvp.Bridge.Workflow.Approve.{approve_needed}
use canton_treasury_dvp.Bridge.Workflow.Reserve.{cancel_zama_if_reserved}
use canton_treasury_dvp.Bridge.Workflow.Lock.{lock_once}
use canton_treasury_dvp.Bridge.Workflow.Release.{Texts, ReleaseMaterials, decode_sized}

module _ {W : Type 0} (services : Services W) where
  -- The loop of `wait_until_chain_time`, which sleeps between its reads.
  unfoldable pub wait_until_chain_time : ℕ → ℤ → Act W ℤ
  unfolding ◌>>=◌ return chain_unix_timestamp approval_expired_on_chain
  wait_until_chain_time zero expiry r = (err (refused (codes "out of fuel")), r)
  wait_until_chain_time (suc fuel) expiry r =
      (chain_unix_timestamp services >>= λ now. elim (approval_expired_on_chain expiry now) [
        | true ↦ return now
        | false ↦ wait_until_chain_time fuel expiry
      ])
        r

module _ {W : Type 0} where
  -- The result of a step that may fail, as a value.
  unfoldable pub outcome {ℓ} : {A : Type ℓ} → Act W A → Act W (Result Failure A)
  outcome m r = (ok (m r).0, (m r).1)

module _ {W : Type 0} (services : Services W) (options : Options) (texts : Texts)
    (context : Context) where
  unfoldable pub prove_vault_unlocked : Act W (Unit {0})
  unfolding ◌>>=◌ ◌>>◌ ask ensure
  prove_vault_unlocked = do
    pending ← ask (services.pending_credit_counter context.vault)
    available ← ask (services.decrypt_available context.vault)
    ensure (pending == 0) (codes "vault still has pending confidential credits")
    ensure (available == 0) (codes "vault still holds locked value")
    encrypted ← ask (services.has_pending_encrypted_credit context.vault)
    ensure (not encrypted) (codes "vault still has encrypted pending credits")

  abbrev pub digest_for : ℕ → ℤ → Bytes → Bytes
  digest_for direction expiry proof = operation_digest services.sha256 (record {
    chain_id = context.chain_id;
    program_id = context.program_id;
    config = context.config;
    operation = context.operation;
    direction = direction;
    lock_receipt = context.receipt;
    destination = context.source;
    amount_commitment = context.commitment;
    zama_reservation = context.reservation;
    previous_operation = context.previous;
    expiry = expiry;
    proof_commitment = proof;
  })

  abbrev pub cancel_movement : ℤ → TransferProofs → Movement
  cancel_movement expiry p = record {
    direction = direction_cancel;
    vault = context.vault;
    destination = context.source;
    operation = context.operation;
    amount_commitment = context.commitment;
    zama_reservation = context.reservation;
    previous_operation = context.previous;
    expiry = expiry;
    transfer_data = p.transfer_data;
    equality = p.equality;
    validity = p.validity;
    range = p.range;
    vault_decryptable = [];
  }

  -- What is left when the receipt is cancelled.
  unfoldable pub finish_cancel : Act W (Unit {0})
  unfolding ◌>>=◌ ◌>>◌ return stop_here cancel_zama_if_reserved prove_vault_unlocked
  finish_cancel =
      cancel_zama_if_reserved services context.reservation_hex
      >> (prove_vault_unlocked >> (stop_here services options cancelled >>= λ stop. return tt))

  -- `apply_pending` on what the cancellation has credited to the source.
  unfoldable pub collect_source : Act W (Unit {0})
  unfolding ◌>>=◌ return ask send
  collect_source = ask (services.pending_credit_counter context.source) >>= λ pending.
      elim (ltb 0 pending) [
        | true ↦ send services (apply_pending context.source context.amount pending) >>= λ done.
            return tt
        | false ↦ return tt
      ]

  unfoldable pub submit_cancel : Act W (Unit {0})
  unfolding ◌>>=◌ ◌>>◌ ask send operation_digest proof_commitment chain_unix_timestamp
      approve_needed collect_source finish_cancel
  submit_cancel = do
    cancel_now ← chain_unix_timestamp services
    let expiry = texts.later cancel_now (pos 3600)
    p ← ask (services.generate_transfer_proofs context.vault context.source context.amount)
    let proof =
        proof_commitment services.sha256 p.decryptable p.auditor_lo p.auditor_hi p.equality
          p.validity p.range
    pairs ←
        approve_needed services options direction_cancel context.operation expiry
          (digest_for direction_cancel expiry proof)
    ask (services.measure_legacy (movement (cancel_movement expiry p)))
    id ← send services (movement (cancel_movement expiry p))
    sig ← ask (services.wait_confirmed id)
    ask (services.confirm_on_chain sig)
    collect_source
    finish_cancel

  unfoldable pub cancel_locked_operation : Act W (Unit {0})
  unfolding ◌>>=◌ ◌>>◌ ensure read_receipt_status submit_cancel finish_cancel
  cancel_locked_operation = read_receipt_status services context.receipt >>= λ before.
      elim (is_status receipt_cancelled before) [
        | true ↦ finish_cancel
        | false ↦ do
          status ← read_receipt_status services context.receipt
          ensure (is_status receipt_locked status)
              (codes "cancel is only allowed while the receipt is locked")
          ensure
              (not (is_status receipt_mint_authorized status)
                && not (is_status receipt_released status))
              (codes "refusing to cancel after mint authorization")
          submit_cancel
      ]

  abbrev pub is_err {ℓ} : {A : Type ℓ} → Result Failure A → Bool
  is_err (ok a) = false
  is_err (err e) = true

  abbrev pub or_zeros : Result Failure Bytes → Bytes
  or_zeros (ok proof) = proof
  or_zeros (err e) = replicate 32 0

  unfoldable pub run_expiry_recovery : ℕ → ℤ → Act W (Unit {0})
  unfolding ◌>>=◌ ◌>>◌ get_journal ensure operation_digest chain_unix_timestamp lock_once
      wait_until_chain_time decode_sized outcome approve_needed cancel_locked_operation
  run_expiry_recovery fuel mint_expiry = do
    lock_once services texts.to_hex context mint_expiry
    chain_before ← chain_unix_timestamp services
    chain_now ← wait_until_chain_time services fuel mint_expiry
    j ← get_journal
    proof ← outcome (decode_sized texts 32 j.lock_proof_hex)
    minted ← outcome (
        approve_needed services options direction_mint context.operation mint_expiry
          (digest_for direction_mint mint_expiry (or_zeros proof)))
    ensure (is_err minted) (codes "mint approval must fail after the original deadline")
    cancel_locked_operation
