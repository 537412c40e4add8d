-- ===== src/Bridge/Workflow/Release.antt =====
-- bridge/src/workflow.rs: the payout from the vault, after the redemption.
use canton_treasury_dvp.Base.{
  [], ℕ, Bool, true, false, ◌&&◌, ◌||◌, not, Option, none, some, Bytes, Result, ℤ, pos, ltb_ℤ,
  eqb_ℤ, codes, to_le_bytes, length, ◌==◌, if◌then◌else◌,
}
use canton_treasury_dvp.Bridge.Units.{Text, is_empty}
use canton_treasury_dvp.Bridge.Canonical.{direction_release, operation_digest, proof_commitment}
use canton_treasury_dvp.Bridge.Journal.{Journal, released, release_approved, reached}
use canton_treasury_dvp.Bridge.Recovery.{receipt_released, should_submit_release}
use canton_treasury_dvp.Bridge.Ledger.Steps.{contains}
use canton_treasury_dvp.Bridge.Workflow.{
  Services, Options, Context, Movement, Act, movement, service, ◌>>=◌, ◌>>◌, return, ask, ensure,
  lift, get_journal, set_journal, save, send, stop_here, read_receipt_status, chain_unix_timestamp,
}
use canton_treasury_dvp.Bridge.Workflow.Approve.{approve_needed}

-- The hexadecimal and the base-58 texts of bytes, and the sum of two times.
pub record Texts : Type 0 where
  pub to_hex : Bytes → Text
  pub from_hex : Text → Result Text Bytes
  pub to_base58 : Bytes → Text
  pub from_base58 : Text → Result Text Bytes
  pub later : ℤ → ℤ → ℤ

pub record ReleaseMaterials : Type 0 where
  pub expiry : ℤ
  pub proof : Bytes
  pub transfer_data : Bytes
  pub equality : Bytes
  pub validity : Bytes
  pub range : Bytes

module _ {W : Type 0} (texts : Texts) where
  -- `decode_proof32` and `decode_transfer`
  unfoldable pub decode_sized : ℕ → Text → Act W Bytes
  unfolding ◌>>=◌ ◌>>◌ return lift ensure
  decode_sized size t = do
    bytes ← lift service (texts.from_hex t)
    ensure (length bytes == size) (codes "length")
    return bytes

module _ {W : Type 0} (services : Services W) (options : Options) (texts : Texts)
    (context : Context) where
  unfoldable pub stored_materials : Journal → Act W ReleaseMaterials
  unfolding ◌>>=◌ return lift decode_sized
  stored_materials j = do
    proof ← decode_sized texts 32 j.release_proof_hex
    transfer_data ← decode_sized texts 167 j.release_transfer_hex
    equality ← lift service (texts.from_base58 j.release_equality)
    validity ← lift service (texts.from_base58 j.release_validity)
    range ← lift service (texts.from_base58 j.release_range)
    return (record {
      expiry = j.release_expiry;
      proof = proof;
      transfer_data = transfer_data;
      equality = equality;
      validity = validity;
      range = range;
    })

  unfoldable pub new_materials : Act W ReleaseMaterials
  unfolding ◌>>=◌ ◌>>◌ return ask get_journal set_journal save chain_unix_timestamp proof_commitment
  new_materials = do
    p ← ask (services.generate_transfer_proofs context.vault context.destination context.amount)
    let proof =
        proof_commitment services.sha256 p.decryptable p.auditor_lo p.auditor_hi p.equality
          p.validity p.range
    chain_now ← chain_unix_timestamp services
    let expiry = texts.later chain_now context.release_deadline_secs
    j ← get_journal
    set_journal (record j {
      release_expiry = expiry;
      release_proof_hex = texts.to_hex proof;
      release_transfer_hex = texts.to_hex p.transfer_data;
      release_equality = texts.to_base58 p.equality;
      release_validity = texts.to_base58 p.validity;
      release_range = texts.to_base58 p.range;
    })
    save services
    return (record {
      expiry = expiry;
      proof = proof;
      transfer_data = p.transfer_data;
      equality = p.equality;
      validity = p.validity;
      range = p.range;
    })

  unfoldable pub release_materials : Act W ReleaseMaterials
  unfolding ◌>>=◌ get_journal stored_materials new_materials
  release_materials = get_journal >>= λ j.
      elim (ltb_ℤ (pos 0) j.release_expiry && not (is_empty j.release_transfer_hex)) [
        | true ↦ stored_materials j
        | false ↦ new_materials
      ]

  unfoldable pub release_digest : ReleaseMaterials → Bytes
  unfolding operation_digest
  release_digest m = operation_digest services.sha256 (record {
    chain_id = context.chain_id;
    program_id = context.program_id;
    config = context.config;
    operation = context.operation;
    direction = direction_release;
    lock_receipt = context.receipt;
    destination = context.destination;
    amount_commitment = context.commitment;
    zama_reservation = context.reservation;
    previous_operation = context.previous;
    expiry = m.expiry;
    proof_commitment = m.proof;
  })

  abbrev pub release_movement : ReleaseMaterials → Movement
  release_movement m = record {
    direction = direction_release;
    vault = context.vault;
    destination = context.destination;
    operation = context.operation;
    amount_commitment = context.commitment;
    zama_reservation = context.reservation;
    previous_operation = context.previous;
    expiry = m.expiry;
    transfer_data = m.transfer_data;
    equality = m.equality;
    validity = m.validity;
    range = m.range;
    vault_decryptable = [];
  }

  unfoldable pub inspect_public_leak : Movement → Act W (Unit {0})
  unfolding ensure contains
  inspect_public_leak m =
      ensure (not (contains (services.instruction_data m) (to_le_bytes 8 context.amount)))
        (codes "plaintext amount found in public release instruction data")

  unfoldable pub note_fault_recovered : Act W (Unit {0})
  unfolding ◌>>=◌ ◌>>◌ return get_journal set_journal save chain_unix_timestamp
  note_fault_recovered = get_journal >>= λ j.
      elim (eqb_ℤ j.fault_injected_chain_time (pos 0)
        || not (eqb_ℤ j.fault_recovered_chain_time (pos 0))) [
          | true ↦ return tt
          | false ↦ chain_unix_timestamp services >>= λ chain_now.
              set_journal (record j { fault_recovered_chain_time = chain_now })
              >> (if options.omit_journal_save then return tt else save services)
        ]

  -- Sends the release and waits for it.
  unfoldable pub send_release : Movement → Act W (Unit {0})
  unfolding ◌>>=◌ ◌>>◌ return ask ensure get_journal set_journal send read_receipt_status
      inspect_public_leak note_fault_recovered
  send_release m = do
    ask (services.measure_legacy (movement m))
    id ← send services (movement m)
    sig ← ask (services.wait_confirmed id)
    ask (services.confirm_on_chain sig)
    j ← get_journal
    set_journal (record j { release_signature = sig })
    inspect_public_leak m
    note_fault_recovered
    status ← read_receipt_status services context.receipt
    elim status [
      | none ↦ return tt
      | some s ↦
          ensure (s == receipt_released) (codes "release confirmed but the receipt is not released")
    ]

  -- Whether the run stops before the payout is looked at.
  unfoldable pub release_if_needed : Option ℕ → Act W Bool
  unfolding ◌>>=◌ ◌>>◌ return get_journal stop_here release_materials release_digest send_release
      approve_needed should_submit_release
  release_if_needed status = get_journal >>= λ j.
      elim (should_submit_release (reached j released) status) [
        | false ↦ return false
        | true ↦ do
          m ← release_materials
          approve_needed services options direction_release context.operation m.expiry
                (release_digest m)
              >>= λ submitted. elim options.halt_after_first_approval [
                | true ↦ return true
                | false ↦ stop_here services options release_approved >>= λ stop. elim stop [
                  | true ↦ return true
                  | false ↦ send_release (release_movement m) >> return false
                ]
              ]
      ]
