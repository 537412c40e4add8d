-- ===== src/Bridge/Workflow/Lock.antt =====
-- bridge/src/workflow.rs: the lock of the source's tokens in the vault.
use canton_treasury_dvp.Base.{◌+◌, true, false, none, some, Bytes, ℤ, codes, ◌==◌}
use canton_treasury_dvp.Bridge.Units.{Text}
use canton_treasury_dvp.Bridge.Canonical.{direction_lock, proof_commitment}
use canton_treasury_dvp.Bridge.Journal.{locked, reached, max_completed}
use canton_treasury_dvp.Bridge.Workflow.{
  Services, Context, TransferProofs, Movement, Act, movement, ◌>>=◌, ◌>>◌, return, ask, ensure,
  get_journal, set_journal, save, send, read_receipt_status,
}

module _ {W : Type 0} (services : Services W) (to_hex : Bytes → Text) (context : Context) where
  abbrev pub commitment_of : TransferProofs → Bytes
  commitment_of p =
      proof_commitment services.sha256 p.decryptable p.auditor_lo p.auditor_hi p.equality p.validity
        p.range

  abbrev pub lock_movement : ℤ → TransferProofs → Bytes → Movement
  lock_movement expiry p sealed = record {
    direction = direction_lock;
    vault = context.vault;
    destination = context.source;
    operation = context.operation;
    amount_commitment = context.commitment;
    zama_reservation = context.reservation;
    previous_operation = context.previous;
    expiry = expiry;
    transfer_data = p.transfer_data;
    equality = p.equality;
    validity = p.validity;
    range = p.range;
    vault_decryptable = sealed;
  }

  -- The lock, when neither the journal nor the chain has it.
  unfoldable pub submit_lock : ℤ → Act W (Unit {0})
  unfolding ◌>>=◌ ◌>>◌ ask ensure get_journal set_journal save send proof_commitment
  submit_lock mint_expiry = do
    source_before ← ask (services.decrypt_available context.source)
    vault_before ← ask (services.decrypt_available context.vault)
    ensure (source_before == context.amount) (codes "source confidential balance before lock")
    ensure (vault_before == 0) (codes "vault confidential balance before lock")
    proofs ← ask (services.generate_transfer_proofs context.source context.vault context.amount)
    j ← get_journal
    set_journal (record j { lock_proof_hex = to_hex (commitment_of proofs) })
    save services
    sealed ← ask (services.encrypt context.vault (vault_before + context.amount))
    ask (services.measure_legacy (movement (lock_movement mint_expiry proofs sealed)))
    id ← send services (movement (lock_movement mint_expiry proofs sealed))
    sig ← ask (services.wait_confirmed id)
    ask (services.confirm_on_chain sig)
    k ← get_journal
    set_journal (record k { lock_signature = sig })
    save services

  unfoldable pub lock_once : ℤ → Act W (Unit {0})
  unfolding ◌>>=◌ return get_journal set_journal reached max_completed read_receipt_status
      submit_lock
  lock_once mint_expiry = get_journal >>= λ j. elim (reached j locked) [
    | true ↦ return tt
    | false ↦ read_receipt_status services context.receipt >>= λ status. elim status [
      | some s ↦ set_journal (record j { completed = some (max_completed locked j.completed) })
      | none ↦ submit_lock mint_expiry
    ]
  ]
