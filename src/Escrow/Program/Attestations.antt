-- ===== src/Escrow/Program/Attestations.antt =====
-- Which attester signed what: the log of accepted signatures, and its agreement with the bitmaps.
pub mod Preserved
pub mod Events
use canton_treasury_dvp.Base.{
  ℕ, ◌+◌, ◌≡◌, ◌≤◌, ◌<◌, ◌≢◌, refl, sym, Bool, true, false, ◌||◌, ◌&&◌, Option, none, some, List,
  [], ◌∷◌, Bytes, lookup, insert, lookup-insert, Result, ok, err, bytes_eq, bytes_eq_iff, ℤ, inl,
  inr, ◌⊎◌, arith, Result-cases, ◌∙◌, ap, subst, Bool-cases, if◌then◌else◌, ◌==◌, Dict,
}
use canton_treasury_dvp.Escrow.Runtime.{Runtime, Error}
use canton_treasury_dvp.Escrow.State.{
  Account, LockReceipt, OperationApproval, BridgeConfig, config, receipt, approval, attester_index,
  config_seed, distinct_signers,
}
use canton_treasury_dvp.Escrow.State.Quorum.{has_bit, set_bit-lt, has_bit-set_bit, has_bit-zero}
use canton_treasury_dvp.Escrow.Ed25519.{read_preceding_ed25519, Ed25519Approval}
use canton_treasury_dvp.Escrow.Accounts.{
  Ledger, ApproveContext, InitializeContext, LockContext, MoveContext, load_config, load_or_init,
  zeroed_approval,
}
use canton_treasury_dvp.Escrow.Requests.{
  LockArgs, ApproveArgs, InitializeArgs, MovementArgs, open_approval, add_signer, fresh_approval,
}
use canton_treasury_dvp.Escrow.Handlers.{
  approve_operation, initialize, lock_confidential, move_vault_tokens, cancel_confidential,
  release_confidential,
}
use canton_treasury_dvp.Escrow.Handlers.Loaded.{check_approve-ApproveLoaded, check_move-MoveLoaded}
use canton_treasury_dvp.Escrow.Handlers.Locked.{lock_confidential-Locked, initialize-Initialized}
use canton_treasury_dvp.Escrow.Handlers.Approved.{approve_operation-Approved}
use canton_treasury_dvp.Escrow.Handlers.Moved.{move_vault_tokens-Moved}
use canton_treasury_dvp.Escrow.Program.{
  Event, transaction, elsewhere, initializes, locks, approves, cancels, releases, execute, step,
  run, Call,
}
use canton_treasury_dvp.Escrow.Program.Evolution
use canton_treasury_dvp.Escrow.Program.Evolution.{Evolves, step-Evolves, execute-Evolves}

-- A signature that the program accepted, under the configuration of that time.
pub record Attestation : Type 0 where
  pub config : BridgeConfig
  pub attester : Bytes
  pub approval : Bytes
  pub digest : Bytes

abbrev pub Log : Type 0
Log = List Attestation

pub data Logged (x : Attestation) : Log → Type 0 where
  newest : (l : Log) → Logged x (x ∷ l)
  older : (y : Attestation) {l : Log} → Logged x l → Logged x (y ∷ l)

-- What two readings of an accepted request say.
abbrev evidence : Result Error BridgeConfig → Result Error Ed25519Approval → Bytes → Log → Log
evidence (ok c) (ok s) key l =
    record { config = c; attester = s.attester; approval = key; digest = s.digest } ∷ l
evidence (ok c) (err e) key l = l
evidence (err e) s key l = l

module _ {T : Type 0} (rt : Runtime T) where
  -- The log after one call that succeeds, newest first.
  unfoldable pub record_call : Ledger T → Call → Log → Log
  record_call before (initializes ctx args) l = l
  record_call before (locks ctx args) l = l
  record_call before (approves ctx args) l =
      evidence (load_config rt before.accounts ctx.config.key)
        (read_preceding_ed25519 rt ctx.instructions_sysvar) ctx.approval.key l
  record_call before (cancels ctx args) l = l
  record_call before (releases ctx args) l = l

  unfoldable pub record_event : Ledger T → Event T → Log → Log
  record_event before (elsewhere tokens) l = l
  record_event before (transaction now call) l = elim (execute rt now call before) [
    | ok after ↦ record_call before call l
    | err e ↦ l
  ]

  -- The signatures accepted in a run, behind those of `l`.
  unfoldable pub attestations : Ledger T → List (Event T) → Log → Log
  attestations before [] l = l
  attestations before (e ∷ es) l = attestations (step rt before e) es (record_event before e l)

  abbrev pub config_key : Bytes
  config_key = rt.create_address (config_seed ∷ []) (rt.find_bump (config_seed ∷ []))

  -- Attester `j` of the configuration in force has signed `digest` for the approval at `k`.
  pub record Vouched (d : Dict Account) (l : Log) (k digest : Bytes) (j : ℕ) : Type 0 where
    pub config : BridgeConfig
    pub attester : Bytes
    pub in_force : lookup config_key d ≡ some (Account.config config)
    pub known : attester_index config attester ≡ some j
    pub logged :
        Logged (record { config = config; attester = attester; approval = k; digest = digest }) l

  -- Each bit of an approval stands for a logged signature of its digest.
  pub record Backed (d : Dict Account) (l : Log) (k : Bytes) (a : OperationApproval) : Type 0 where
    pub small : a.signer_bitmap < 8
    pub bits : (j : ℕ) → j < 3 → has_bit a.signer_bitmap j ≡ true → Vouched d l k a.digest j

  pub record Inv (d : Dict Account) (l : Log) : Type 0 where
    pub configs : (k : Bytes) (c : BridgeConfig) → lookup k d ≡ some (config c) → k ≡ config_key
    pub approvals :
        (k : Bytes) (a : OperationApproval) → lookup k d ≡ some (approval a) → Backed d l k a
