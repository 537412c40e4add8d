-- ===== src/Escrow/Program/Evolution.antt =====
-- How one transaction changes one account.
use canton_treasury_dvp.Base.{
  ℕ, ◌≡◌, ◌≢◌, refl, sym, subst, true, false, Option, none, some, Bytes, lookup, insert,
  lookup-insert, ok, bytes_eq, bytes_eq_iff, ℤ, ◌≤◌, inl, inr, ◌⊎◌, Bool-cases, arith, Dict,
  Result-cases, ◌∙◌,
}
use native.Mathlib.Decide.{ℕ_discrete}
use canton_treasury_dvp.Escrow.Program.{
  Call, Event, transaction, elsewhere, initializes, locks, approves, cancels, releases, execute,
  step,
}
use canton_treasury_dvp.Escrow.Canonical.{
  receipt_locked, receipt_mint_authorized, receipt_cancelled, receipt_released, direction_cancel,
  direction_release,
}
use canton_treasury_dvp.Escrow.Runtime.{Runtime}
use canton_treasury_dvp.Escrow.State.{
  BridgeConfig, LockReceipt, OperationApproval, Account, config, receipt, approval,
  distinct_signers,
}
use canton_treasury_dvp.Escrow.Accounts.{
  Ledger, LockContext, InitializeContext, ApproveContext, MoveContext, load_or_init,
}
use canton_treasury_dvp.Escrow.Requests.{
  LockArgs, InitializeArgs, ApproveArgs, MovementArgs, distinct_attesters, open_approval,
  add_signer, authorize_mint,
}
use canton_treasury_dvp.Escrow.Handlers.{
  initialize, lock_confidential, approve_operation, move_vault_tokens, cancel_confidential,
  release_confidential, final_status,
}
use canton_treasury_dvp.Escrow.Handlers.Loaded.{
  check_lock-lookup, check_approve-ApproveLoaded, check_move-MoveLoaded,
}
use canton_treasury_dvp.Escrow.Handlers.Locked.{lock_confidential-Locked, initialize-Initialized}
use canton_treasury_dvp.Escrow.Handlers.Approved.{approve_operation-Approved}
use canton_treasury_dvp.Escrow.Handlers.Moved.{move_vault_tokens-Moved}

-- The changes of an account that some transaction can make.
pub data Evolves : Option Account → Option Account → Type 0 where
  kept : (x : Option Account) → Evolves x x
  configured :
      (c : BridgeConfig) → distinct_attesters c.attesters ≡ true → Evolves none (some (config c))
  locked : (r : LockReceipt) → r.status ≡ receipt_locked → Evolves none (some (receipt r))
  authorized :
      (r : LockReceipt)
      → (r.status ≡ receipt_locked) ⊎ (r.status ≡ receipt_mint_authorized)
      → Evolves (some (receipt r)) (some (receipt (record r { status = receipt_mint_authorized })))
  cancelled :
      (r : LockReceipt)
      → r.status ≡ receipt_locked
      → Evolves (some (receipt r)) (some (receipt (record r { status = receipt_cancelled })))
  released :
      (r : LockReceipt)
      → r.status ≡ receipt_mint_authorized
      → Evolves (some (receipt r)) (some (receipt (record r { status = receipt_released })))
  opened : (a : OperationApproval) → a.consumed ≡ false → Evolves none (some (approval a))
  signed :
      (a b : OperationApproval)
      → a.consumed ≡ false
      → b.consumed ≡ false
      → Evolves (some (approval a)) (some (approval b))
  consumed :
      (a : OperationApproval)
      → a.consumed ≡ false
      → 2 ≤ distinct_signers a
      → Evolves (some (approval a)) (some (approval (record a { consumed = true })))

insert-Evolves :
    (j k : Bytes) (v : Account) (d : Dict Account)
    → Evolves (lookup j d) (some v)
    → Evolves (lookup k d) (lookup k (insert j v d))
insert-Evolves j k v d at_j = rw lookup-insert (elim (Bool-cases (bytes_eq j k)) [
  | inl here ↦ rw here (subst (λ i. Evolves (lookup i d) (some v)) ((bytes_eq_iff j k).0 here) at_j)
  | inr away ↦ rw away (kept _)
])

insert_two-Evolves :
    (i j k : Bytes) (v w : Account) (d : Dict Account)
    → Evolves (lookup i d) (some v)
    → Evolves (lookup j d) (some w)
    → Evolves (lookup k d) (lookup k (insert i v (insert j w d)))
insert_two-Evolves i j k v w d at_i at_j =
    rw (lookup-insert i k v (insert j w d)) (elim (Bool-cases (bytes_eq i k)) [
      | inl here ↦
          rw here (subst (λ l. Evolves (lookup l d) (some v)) ((bytes_eq_iff i k).0 here) at_i)
      | inr away ↦ rw away (insert-Evolves j k w d at_j)
    ])

-- A request keeps the receipt, or authorizes the mint of one that is locked or authorized.
pub authorize_mint-cases :
    (direction : ℕ) (a : OperationApproval) (r r' : LockReceipt)
    → authorize_mint direction a r ≡ ok r'
    → (r' ≡ r)
      ⊎ (((r.status ≡ receipt_locked) ⊎ (r.status ≡ receipt_mint_authorized))
          × (r' ≡ record r { status = receipt_mint_authorized }))
unfolding authorize_mint
authorize_mint-cases direction a r r' h = ground arith

authorize_mint-Evolves :
    (direction : ℕ) (a : OperationApproval) (r r' : LockReceipt)
    → authorize_mint direction a r ≡ ok r'
    → Evolves (some (receipt r)) (some (receipt r'))
authorize_mint-Evolves direction a r r' h = elim (authorize_mint-cases direction a r r' h) [
  | inl same ↦ subst (λ x. Evolves (some (receipt r)) (some (receipt x))) (sym same) (kept _)
  | inr (status, changed) ↦
      subst (λ x. Evolves (some (receipt r)) (some (receipt x))) (sym changed) (authorized r status)
]

-- Only an unused approval is opened.
open_approval-unused :
    (a : OperationApproval) (args : ApproveArgs) (digest : Bytes) (now : ℤ) (bump : ℕ)
    {b : OperationApproval}
    → open_approval a args digest now bump ≡ ok b
    → (a.consumed ≡ false) × (b.consumed ≡ false)
unfolding open_approval
open_approval-unused a args digest now bump h = ground arith

add_signer-consumed :
    (a : OperationApproval) (index : ℕ) {b : OperationApproval}
    → add_signer a index ≡ ok b
    → b.consumed ≡ a.consumed
unfolding add_signer
add_signer-consumed a index h = ground arith

approval-Evolves :
    (o : Option Account) (a b : OperationApproval)
    → load_or_init o ≡ ok a
    → a.consumed ≡ false
    → b.consumed ≡ false
    → Evolves o (some (approval b))
approval-Evolves none a b h ha hb = opened b hb
approval-Evolves (some (config c)) a b h ha hb = absurd (ground arith)
approval-Evolves (some (receipt r)) a b h ha hb = absurd (ground arith)
approval-Evolves (some (approval c)) a b h ha hb = signed c b (ground arith) hb

final_status-release :
    (direction : ℕ) → direction ≢ direction_cancel → final_status direction ≡ receipt_released
final_status-release direction ne = ground arith

-- A movement ends the receipt in the status of its direction.
movement-Evolves :
    (direction : ℕ) (r : LockReceipt)
    → (direction ≡ direction_cancel → r.status ≡ receipt_locked)
    → (direction ≢ direction_cancel → r.status ≡ receipt_mint_authorized)
    → Evolves (some (receipt r)) (some (receipt (record r { status = final_status direction })))
movement-Evolves direction r if_cancel if_release = elim (ℕ_discrete direction direction_cancel) [
  | yes e ↦
      subst
        (λ d. Evolves (some (receipt r)) (some (receipt (record r { status = final_status d }))))
        (sym e) (cancelled r (if_cancel e))
  | no ne ↦ rw (final_status-release direction ne) (released r (if_release ne))
]

module _ {T : Type 0} (rt : Runtime T) (k : Bytes) where
  initialize-Evolves :
      (ctx : InitializeContext) (args : InitializeArgs) (before after : Ledger T)
      → initialize rt ctx args before ≡ ok after
      → Evolves (lookup k before.accounts) (lookup k after.accounts)
  initialize-Evolves ctx args before after h =
      let done = initialize-Initialized rt ctx args before after h in
      subst (λ (l : Ledger T). Evolves (lookup k before.accounts) (lookup k l.accounts))
        (sym done.written)
        (insert-Evolves ctx.config.key k _ before.accounts
          (rw done.unused (configured _ done.distinct)))

  lock_confidential-Evolves :
      (ctx : LockContext) (args : LockArgs) (now : ℤ) (before after : Ledger T)
      → lock_confidential rt ctx args now before ≡ ok after
      → Evolves (lookup k before.accounts) (lookup k after.accounts)
  lock_confidential-Evolves ctx args now before after h =
      let done = lock_confidential-Locked rt ctx args now before after h in
      let found = check_lock-lookup rt before.accounts ctx args.operation done.opened done.loaded in
      subst (λ (l : Ledger T). Evolves (lookup k before.accounts) (lookup k l.accounts))
        (sym done.written)
        (insert-Evolves ctx.receipt.key k _ before.accounts (rw (found.1) (locked _ refl)))

  approve_operation-Evolves :
      (ctx : ApproveContext) (args : ApproveArgs) (now : ℤ) (before after : Ledger T)
      → approve_operation rt ctx args now before ≡ ok after
      → Evolves (lookup k before.accounts) (lookup k after.accounts)
  approve_operation-Evolves ctx args now before after h =
      let done = approve_operation-Approved rt ctx args now before after h in
      let found =
        check_approve-ApproveLoaded rt before.accounts ctx args.operation args.direction done.opened
          done.loaded in
      let unused = open_approval-unused done.opened.approval args _ now _ done.based in
      let same = add_signer-consumed done.base done.index done.added in
      subst (λ (l : Ledger T). Evolves (lookup k before.accounts) (lookup k l.accounts))
        (sym done.written)
        (insert_two-Evolves ctx.approval.key ctx.receipt.key k _ _ before.accounts
          (approval-Evolves _ done.opened.approval done.final found.approval_found unused.0
            (same ∙ unused.1))
          (rw found.receipt_found
            (authorize_mint-Evolves args.direction done.final _ _ done.authorized)))

  move_vault_tokens-Evolves :
      (ctx : MoveContext) (args : MovementArgs) (direction : ℕ) (now : ℤ) (before after : Ledger T)
      → move_vault_tokens rt ctx args direction now before ≡ ok after
      → Evolves (lookup k before.accounts) (lookup k after.accounts)
  move_vault_tokens-Evolves ctx args direction now before after h =
      let done = move_vault_tokens-Moved rt ctx args direction now before after h in
      let found = check_move-MoveLoaded rt before.accounts ctx done.opened done.loaded in
      subst (λ (l : Ledger T). Evolves (lookup k before.accounts) (lookup k l.accounts))
        (sym done.written)
        (insert_two-Evolves ctx.approval.key ctx.receipt.key k _ _ before.accounts
          (rw found.approval_found (consumed _ done.permitted.unused done.permitted.quorum))
          (rw found.receipt_found (
            movement-Evolves direction _ (λ e. (done.permitted.cancels e).0)
              done.permitted.releases)))

  pub execute-Evolves :
      (now : ℤ) (call : Call) (before after : Ledger T)
      → execute rt now call before ≡ ok after
      → Evolves (lookup k before.accounts) (lookup k after.accounts)
  unfolding execute cancel_confidential release_confidential
  execute-Evolves now (initializes ctx args) before after h =
      initialize-Evolves ctx args before after h
  execute-Evolves now (locks ctx args) before after h =
      lock_confidential-Evolves ctx args now before after h
  execute-Evolves now (approves ctx args) before after h =
      approve_operation-Evolves ctx args now before after h
  execute-Evolves now (cancels ctx args) before after h =
      move_vault_tokens-Evolves ctx args direction_cancel now before after h
  execute-Evolves now (releases ctx args) before after h =
      move_vault_tokens-Evolves ctx args direction_release now before after h

  -- Over every event, an account stays as it is, or changes in one of these ways: a configuration
  -- with three different attesters, a locked receipt or an unused approval appears where no
  -- account was; a locked or authorized receipt becomes authorized, a locked one cancelled, an
  -- authorized one released, with its other fields kept; an unused approval is written as another
  -- unused one; an unused approval with two signers becomes used.
  pub step-Evolves :
      (before : Ledger T) (e : Event T)
      → Evolves (lookup k before.accounts) (lookup k (step rt before e).accounts)
  unfolding step
  step-Evolves before (elsewhere tokens) = kept _
  step-Evolves before (transaction now call) = elim (Result-cases (execute rt now call before)) [
    | inl (after, done) ↦ rw done (execute-Evolves now call before after done)
    | inr (e, failed) ↦ rw failed (kept _)
  ]
