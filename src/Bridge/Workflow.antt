-- ===== src/Bridge/Workflow.antt =====
-- bridge/src/workflow.rs: the steps of an operation that read the chains and send transactions.
--
-- A step runs on the world that the services answer from, the journal in memory, and the list of
-- what was sent, the newest first. `?` is a bind: what a failed step has sent stays sent. What is
-- printed is left out.
pub mod Reserve
pub mod Lock
pub mod Approve
pub mod Release
pub mod Payout
pub mod Cancel
pub mod Complete
pub mod Counted
pub mod Spent
pub mod Once
pub mod Settled
pub mod Traced
pub mod Halted
pub mod Quorum
pub mod Reserved
use canton_treasury_dvp.Base.{
  ℕ, Bool, true, false, not, Option, none, some, List, [], ◌∷◌, Bytes, Result, ok, err, ℤ, codes,
  if◌then◌else◌,
}
use canton_treasury_dvp.Bridge.Units.{Text}
use canton_treasury_dvp.Bridge.Journal.{Step, Journal, reached, is_step}
use canton_treasury_dvp.Bridge.Recovery.{
  RecoveryError, OnChainApproval, decode_approval, decode_receipt_status, decode_chain_clock,
}
use canton_treasury_dvp.Bridge.Reservation.{ReservationError}
use canton_treasury_dvp.Bridge.Evidence.{EvidenceError}

-- `LockFields` and `MovementFields` with the accounts of the instruction. Only a lock has a
-- `vault_decryptable`.
pub record Movement : Type 0 where
  pub direction : ℕ
  pub vault : Bytes
  pub destination : Bytes
  pub operation : Bytes
  pub amount_commitment : Bytes
  pub zama_reservation : Bytes
  pub previous_operation : Bytes
  pub expiry : ℤ
  pub transfer_data : Bytes
  pub equality : Bytes
  pub validity : Bytes
  pub range : Bytes
  pub vault_decryptable : Bytes

pub data Attester : Type 0 where
  attester_a attester_b unknown_attester : Attester

-- A request that leaves the workflow: to the Zama contract, of an attester's signature of a digest
-- for an approval, of a movement, of a lock, and to apply pending credits.
pub data Sent : Type 0 where
  zama_reserve : Text → ℕ → Sent
  zama_cancel : Text → Sent
  zama_redeem : Text → Sent
  approval : ℕ → Attester → Bytes → Sent
  movement : Movement → Sent
  apply_pending : Bytes → ℕ → ℕ → Sent

-- The arguments that the steps share: the accounts, the amount, and the fields of the digests.
pub record Context : Type 0 where
  pub source : Bytes
  pub vault : Bytes
  pub destination : Bytes
  pub destination_text : Text
  pub amount : ℕ
  pub commitment : Bytes
  pub operation : Bytes
  pub reservation : Bytes
  pub previous : Bytes
  pub chain_id : Bytes
  pub program_id : Bytes
  pub config : Bytes
  pub receipt : Bytes
  pub reservation_hex : Text
  pub include_canton_zama : Bool
  pub release_deadline_secs : ℤ

pub data Failure : Type 0 where
  service : Text → Failure
  refused : Text → Failure
  recovery : RecoveryError → Failure
  reservation : ReservationError → Failure
  evidence : EvidenceError → Failure

pub record ZamaReceipt : Type 0 where
  pub approved : Bool
  pub tx_hash : Option Text
  pub gas_used : Option Text

pub record TransferProofs : Type 0 where
  pub transfer_data : Bytes
  pub decryptable : Bytes
  pub auditor_lo : Bytes
  pub auditor_hi : Bytes
  pub equality : Bytes
  pub validity : Bytes
  pub range : Bytes

module _ (W : Type 0) where
  -- A request to a service, which may fail, and may change the world.
  abbrev pub Ask {ℓ} : Type ℓ → Type ℓ
  Ask A = W → Result Text A × W

  -- What the workflow calls: the RPC node, the relayer, the Zama client, the prover, the files.
  pub record Services : Type 0 where
    pub status : Text → Ask ℕ
    pub approved : Text → Ask Bool
    pub submit : Sent → Ask Text
    pub zama_call : Sent → Ask ZamaReceipt
    pub get_account : Bytes → Ask (Option Bytes)
    pub clock_account : Ask Bytes
    pub pending_credit_counter : Bytes → Ask ℕ
    pub decrypt_available : Bytes → Ask ℕ
    pub encrypt : Bytes → ℕ → Ask Bytes
    pub has_pending_encrypted_credit : Bytes → Ask Bool
    pub generate_transfer_proofs : Bytes → Bytes → ℕ → Ask TransferProofs
    pub wait_confirmed : Text → Ask Text
    pub confirm_on_chain : Text → Ask (Unit {0})
    pub measure_legacy : Sent → Ask (Unit {0})
    pub save_journal : Journal → Ask (Unit {0})
    pub save_secrets : Ask (Unit {0})
    pub instruction_data : Movement → Bytes
    pub approval_pda : Bytes → ℕ → Bytes
    pub sha256 : Bytes → Bytes

  pub record Run : Type 0 where
    pub world : W
    pub journal : Journal
    pub sent : List Sent

  abbrev pub Act {ℓ} : Type ℓ → Type ℓ
  Act A = Run → Result Failure A × Run

-- The options of a run.
pub record Options : Type 0 where
  pub stop_after : Option Step
  pub omit_journal_save : Bool
  pub halt_after_first_approval : Bool
  pub inject_attester_disagreement : Bool
  pub inject_unknown_attester : Bool

module _ {W : Type 0} where
  abbrev pub and_then {ℓ κ} :
      {A : Type ℓ} {B : Type κ}
      → Result Failure A × Run W
      → (A → Act W B)
      → Result Failure B × Run W
  and_then (ok a, r) f = f a r
  and_then (err e, r) f = (err e, r)

  abbrev pub with_world {ℓ} : {A : Type ℓ} → Run W → Result Text A × W → Result Failure A × Run W
  with_world r (ok a, w) = (ok a, record r { world = w })
  with_world r (err e, w) = (err (service e), record r { world = w })

  infixl 5 ◌>>=◌ ◌>>◌
  unfoldable pub ◌>>=◌ {ℓ κ} : {A : Type ℓ} {B : Type κ} → Act W A → (A → Act W B) → Act W B
  (m >>= f) r = and_then (m r) f

  unfoldable pub ◌>>◌ {ℓ} : {B : Type ℓ} → Act W (Unit {0}) → Act W B → Act W B
  unfolding ◌>>=◌
  m >> k = m >>= λ _. k

  unfoldable pub return {ℓ} : {A : Type ℓ} → A → Act W A
  return a r = (ok a, r)

  unfoldable pub ask {ℓ} : {A : Type ℓ} → Ask W A → Act W A
  ask m r = with_world r (m r.world)

  -- Records a request, then makes it.
  unfoldable pub request {ℓ} : {A : Type ℓ} → Sent → Ask W A → Act W A
  request s m r = with_world (record r { sent = s ∷ r.sent }) (m r.world)

  -- The result of a request, as a value.
  unfoldable pub attempt {ℓ} : {A : Type ℓ} → Ask W A → Act W (Result Text A)
  attempt m r = (ok (m r.world).0, record r { world = (m r.world).1 })

  unfoldable pub attempt_request {ℓ} : {A : Type ℓ} → Sent → Ask W A → Act W (Result Text A)
  attempt_request s m r =
      (ok (m r.world).0, record { world = (m r.world).1; journal = r.journal; sent = s ∷ r.sent })

  unfoldable pub ensure : Bool → Text → Act W (Unit {0})
  ensure test message r = (if test then ok tt else err (refused message), r)

  unfoldable pub lift {ℓ} : {E : Type 0} {A : Type ℓ} → (E → Failure) → Result E A → Act W A
  lift f (ok a) r = (ok a, r)
  lift f (err e) r = (err (f e), r)

  unfoldable pub get_journal : Act W Journal
  get_journal r = (ok r.journal, r)

  unfoldable pub set_journal : Journal → Act W (Unit {0})
  set_journal j r = (ok tt, record r { journal = j })

  module _ (services : Services W) where
    -- `self.store.save_journal(journal)?`
    unfoldable pub save : Act W (Unit {0})
    unfolding ask
    save r = ask (services.save_journal r.journal) r

    -- `persist`
    unfoldable pub persist : Act W (Unit {0})
    unfolding save ask ◌>>◌
    persist = save >> ask services.save_secrets

    unfoldable pub send : Sent → Act W Text
    unfolding request
    send s = request s (services.submit s)

    unfoldable pub stop_here : Options → Step → Act W Bool
    unfolding save reached ◌>>=◌ ◌>>◌ return get_journal set_journal
    stop_here options step = do
      j ← get_journal
      (if reached j step
          then return tt
          else (set_journal (record j { completed = some step })
              >> (if options.omit_journal_save then return tt else save)))
      return (is_step step options.stop_after)

    unfoldable pub chain_unix_timestamp : Act W ℤ
    unfolding ask ◌>>=◌ lift
    chain_unix_timestamp =
        ask services.clock_account >>= λ bytes. lift recovery (decode_chain_clock bytes)

    unfoldable pub read_receipt_status : Bytes → Act W (Option ℕ)
    unfolding ask ◌>>=◌ lift return
    read_receipt_status receipt = ask (services.get_account receipt) >>= λ account. elim account [
      | none ↦ return none
      | some bytes ↦ lift recovery (decode_receipt_status bytes) >>= λ status. return (some status)
    ]

    unfoldable pub read_approval : Bytes → Act W (Option OnChainApproval)
    unfolding ask ◌>>=◌ lift return
    read_approval account_key = ask (services.get_account account_key) >>= λ account. elim account [
      | none ↦ return none
      | some bytes ↦ lift recovery (decode_approval bytes) >>= λ a. return (some a)
    ]
