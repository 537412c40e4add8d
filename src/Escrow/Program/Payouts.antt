-- ===== src/Escrow/Program/Payouts.antt =====
-- Confidential value in and out of the vault, counted for each receipt.
use canton_treasury_dvp.Base.{
  ℕ, ◌+◌, ◌≡◌, refl, Bool, true, false, ◌||◌, Option, none, some, List, [], ◌∷◌, Bytes, lookup,
  lookup-insert, ok, is_ok, bytes_eq, bytes_eq_iff, ℤ, ◌==◌, inl, inr, arith, ◌&&◌, if◌then◌else◌,
  Result-cases,
}
use canton_treasury_dvp.Escrow.Canonical.{
  receipt_locked, receipt_mint_authorized, direction_cancel, direction_release,
}
use canton_treasury_dvp.Escrow.Runtime.{Runtime}
use canton_treasury_dvp.Escrow.State.{Account, OperationApproval, config, receipt, approval}
use canton_treasury_dvp.Escrow.Accounts.{
  load_or_init, Ledger, LockContext, InitializeContext, ApproveContext, MoveContext,
}
use canton_treasury_dvp.Escrow.Requests.{LockArgs, InitializeArgs, ApproveArgs, MovementArgs}
use canton_treasury_dvp.Escrow.Handlers.{
  initialize, lock_confidential, approve_operation, move_vault_tokens, cancel_confidential,
  release_confidential,
}
use canton_treasury_dvp.Escrow.Handlers.Loaded.{
  check_lock-lookup, check_approve-ApproveLoaded, check_move-MoveLoaded,
}
use canton_treasury_dvp.Escrow.Handlers.Locked.{lock_confidential-Locked, initialize-Initialized}
use canton_treasury_dvp.Escrow.Handlers.Approved.{approve_operation-Approved}
use canton_treasury_dvp.Escrow.Handlers.Moved.{move_vault_tokens-Moved}
use canton_treasury_dvp.Escrow.Program.{
  Call, Event, transaction, elsewhere, initializes, locks, approves, cancels, releases, execute,
  step, run,
}
use canton_treasury_dvp.Escrow.Program.Evolution.{authorize_mint-cases}

-- A receipt whose value is in the vault counts 1.
unfoldable pub held : Option Account → ℕ
held none = 0
held (some (config c)) = 0
held (some (approval a)) = 0
held (some (receipt r)) =
    if r.status == receipt_locked || r.status == receipt_mint_authorized then 1 else 0

abbrev pub receipt_of : Call → Bytes
receipt_of (initializes ctx args) = []
receipt_of (locks ctx args) = ctx.receipt.key
receipt_of (approves ctx args) = ctx.receipt.key
receipt_of (cancels ctx args) = ctx.receipt.key
receipt_of (releases ctx args) = ctx.receipt.key

abbrev pub moves_in : Call → Bool
moves_in (locks ctx args) = true
moves_in (initializes ctx args) = false
moves_in (approves ctx args) = false
moves_in (cancels ctx args) = false
moves_in (releases ctx args) = false

abbrev pub moves_out : Call → Bool
moves_out (initializes ctx args) = false
moves_out (locks ctx args) = false
moves_out (approves ctx args) = false
moves_out (cancels ctx args) = true
moves_out (releases ctx args) = true

abbrev pub count : Bool → ℕ
count b = if b then 1 else 0

held_approval : (o : Option Account) {a : OperationApproval} → load_or_init o ≡ ok a → held o ≡ 0
unfolding held
held_approval none h = refl
held_approval (some (config c)) h = refl
held_approval (some (receipt r)) h = absurd (ground arith)
held_approval (some (approval a)) h = refl

module _ {T : Type 0} (rt : Runtime T) (k : Bytes) where
  -- Whether an event is a successful transaction of one kind on the receipt `k`.
  unfoldable pub succeeds : (Call → Bool) → Ledger T → Event T → Bool
  succeeds kind before (elsewhere tokens) = false
  succeeds kind before (transaction now call) =
      is_ok (execute rt now call before) && kind call && bytes_eq (receipt_of call) k

  -- The number of such events in a run.
  unfoldable pub tally : (Call → Bool) → Ledger T → List (Event T) → ℕ
  tally kind before [] = 0
  tally kind before (e ∷ es) = count (succeeds kind before e) + tally kind (step rt before e) es

  lock_held :
      (ctx : LockContext) (args : LockArgs) (now : ℤ) (before after : Ledger T)
      → lock_confidential rt ctx args now before ≡ ok after
      → held (lookup k after.accounts)
        ≡ held (lookup k before.accounts) + count (bytes_eq ctx.receipt.key k)
  unfolding held
  lock_held ctx args now before after h =
      let done = lock_confidential-Locked rt ctx args now before after h in
      let found = check_lock-lookup rt before.accounts ctx args.operation done.opened done.loaded in
      rw (done.written, lookup-insert) (ground (arith, found, bytes_eq_iff ctx.receipt.key k))

  initialize-held :
      (ctx : InitializeContext) (args : InitializeArgs) (before after : Ledger T)
      → initialize rt ctx args before ≡ ok after
      → held (lookup k after.accounts) ≡ held (lookup k before.accounts)
  unfolding held
  initialize-held ctx args before after h =
      let done = initialize-Initialized rt ctx args before after h in
      rw (done.written, lookup-insert) (ground (arith, done.unused, bytes_eq_iff ctx.config.key k))

  move_held :
      (ctx : MoveContext) (args : MovementArgs) (direction : ℕ) (now : ℤ) (before after : Ledger T)
      → move_vault_tokens rt ctx args direction now before ≡ ok after
      → held (lookup k after.accounts) + count (bytes_eq ctx.receipt.key k)
        ≡ held (lookup k before.accounts)
  unfolding held
  move_held ctx args direction now before after h =
      let done = move_vault_tokens-Moved rt ctx args direction now before after h in
      let found = check_move-MoveLoaded rt before.accounts ctx done.opened done.loaded in
      rw (done.written, lookup-insert, lookup-insert)
        (ground (
          arith,
          found.receipt_found,
          found.approval_found,
          done.permitted.cancels,
          done.permitted.releases,
          bytes_eq_iff ctx.receipt.key k,
          bytes_eq_iff ctx.approval.key k,
        ))

  approve_held :
      (ctx : ApproveContext) (args : ApproveArgs) (now : ℤ) (before after : Ledger T)
      → approve_operation rt ctx args now before ≡ ok after
      → held (lookup k after.accounts) ≡ held (lookup k before.accounts)
  unfolding held
  approve_held ctx args now before after h =
      let done = approve_operation-Approved rt ctx args now before after h in
      let found =
        check_approve-ApproveLoaded rt before.accounts ctx args.operation args.direction done.opened
          done.loaded in
      let cases =
        authorize_mint-cases args.direction done.final done.opened.receipt done.receipt_after
          done.authorized in
      rw (done.written, lookup-insert, lookup-insert)
        (ground (
          arith,
          found.receipt_found,
          found.approval_found,
          cases,
          held_approval (lookup ctx.approval.key before.accounts) found.approval_found,
          bytes_eq_iff ctx.receipt.key k,
          bytes_eq_iff ctx.approval.key k,
        ))

  pub execute-held :
      (now : ℤ) (call : Call) (before after : Ledger T)
      → execute rt now call before ≡ ok after
      → held (lookup k after.accounts) + count (moves_out call && bytes_eq (receipt_of call) k)
        ≡ held (lookup k before.accounts) + count (moves_in call && bytes_eq (receipt_of call) k)
  unfolding execute cancel_confidential release_confidential
  execute-held now (initializes ctx args) before after h =
      omega (arith, initialize-held ctx args before after h)
  execute-held now (locks ctx args) before after h =
      omega (arith, lock_held ctx args now before after h)
  execute-held now (approves ctx args) before after h =
      omega (arith, approve_held ctx args now before after h)
  execute-held now (cancels ctx args) before after h =
      omega (arith, move_held ctx args direction_cancel now before after h)
  execute-held now (releases ctx args) before after h =
      omega (arith, move_held ctx args direction_release now before after h)

  held-step :
      (before : Ledger T) (e : Event T)
      → held (lookup k (step rt before e).accounts) + count (succeeds moves_out before e)
        ≡ held (lookup k before.accounts) + count (succeeds moves_in before e)
  unfolding step succeeds
  held-step before (elsewhere tokens) = refl
  held-step before (transaction now call) = elim (Result-cases (execute rt now call before)) [
    | inl (after, done) ↦ rw done (execute-held now call before after done)
    | inr (e, failed) ↦ rw failed refl
  ]

  -- In every run, the successful movements out of the vault for a receipt and what the receipt
  -- still holds at the end add up to the successful locks of that receipt and what it held at the
  -- start.
  pub run_conserves :
      (before : Ledger T) (es : List (Event T))
      → tally moves_out before es + held (lookup k (run rt before es).accounts)
        ≡ tally moves_in before es + held (lookup k before.accounts)
  unfolding tally run
  run_conserves before [] = refl
  run_conserves before (e ∷ es) =
      omega (arith, held-step before e, run_conserves (step rt before e) es)
