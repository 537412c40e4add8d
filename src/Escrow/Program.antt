-- ===== src/Escrow/Program.antt =====
-- solana/programs/confidential-escrow/src/lib.rs: the program as a sequence of transactions. A
-- transaction that fails changes nothing; between transactions the token accounts may change.
pub mod Evolution
pub mod Payouts
pub mod Lifecycle
pub mod Attestations
pub mod Threshold
pub mod Minted
use canton_treasury_dvp.Base.{ℤ, List, [], ◌∷◌, Result, ok, err}
use canton_treasury_dvp.Escrow.Runtime.{Runtime, Error}
use canton_treasury_dvp.Escrow.Accounts.{
  Ledger, InitializeContext, LockContext, ApproveContext, MoveContext,
}
use canton_treasury_dvp.Escrow.Requests.{InitializeArgs, LockArgs, ApproveArgs, MovementArgs}
use canton_treasury_dvp.Escrow.Handlers.{
  initialize, lock_confidential, approve_operation, cancel_confidential, release_confidential,
}

-- The entry points of `confidential_escrow`.
pub data Call : Type 0 where
  initializes : InitializeContext → InitializeArgs → Call
  locks : LockContext → LockArgs → Call
  approves : ApproveContext → ApproveArgs → Call
  cancels : MoveContext → MovementArgs → Call
  releases : MoveContext → MovementArgs → Call

pub data Event (T : Type 0) : Type 0 where
  transaction : ℤ → Call → Event T
  elsewhere : T → Event T

module _ {T : Type 0} (rt : Runtime T) where
  unfoldable pub execute : ℤ → Call → Ledger T → Result Error (Ledger T)
  execute now (initializes ctx args) ledger = initialize rt ctx args ledger
  execute now (locks ctx args) ledger = lock_confidential rt ctx args now ledger
  execute now (approves ctx args) ledger = approve_operation rt ctx args now ledger
  execute now (cancels ctx args) ledger = cancel_confidential rt ctx args now ledger
  execute now (releases ctx args) ledger = release_confidential rt ctx args now ledger

  abbrev pub settle : Ledger T → Result Error (Ledger T) → Ledger T
  settle before (ok after) = after
  settle before (err e) = before

  unfoldable pub step : Ledger T → Event T → Ledger T
  step ledger (transaction now call) = settle ledger (execute now call ledger)
  step ledger (elsewhere tokens) = record ledger { tokens = tokens }

  unfoldable pub run : Ledger T → List (Event T) → Ledger T
  run ledger [] = ledger
  run ledger (e ∷ es) = run (step ledger e) es
