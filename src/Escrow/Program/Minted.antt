-- ===== src/Escrow/Program/Minted.antt =====
-- The two-of-three rule for mints, over every instruction of the program.
use canton_treasury_dvp.Base.{
  ℕ, ◌≡◌, ◌≢◌, refl, sym, ap, ◌∙◌, subst, Option, none, some, List, [], Bytes, Dict, lookup, insert,
  lookup-insert, bytes_eq, bytes_eq_iff, Bool-cases, inl, inr, ◌⊎◌, ok, ℤ, arith, Result-cases,
}
use canton_treasury_dvp.Escrow.Canonical.{
  receipt_locked, receipt_mint_authorized, direction_cancel, direction_release,
}
use canton_treasury_dvp.Escrow.Runtime.{Runtime}
use canton_treasury_dvp.Escrow.State.{Account, LockReceipt, OperationApproval, receipt, approval}
use canton_treasury_dvp.Escrow.Accounts.{
  Ledger, ApproveContext, InitializeContext, LockContext, MoveContext,
}
use canton_treasury_dvp.Escrow.Requests.{ApproveArgs, InitializeArgs, LockArgs, MovementArgs}
use canton_treasury_dvp.Escrow.Handlers.{
  initialize, lock_confidential, approve_operation, move_vault_tokens, cancel_confidential,
  release_confidential, final_status,
}
use canton_treasury_dvp.Escrow.Handlers.Loaded.{check_lock-lookup}
use canton_treasury_dvp.Escrow.Handlers.Locked.{lock_confidential-Locked, initialize-Initialized}
use canton_treasury_dvp.Escrow.Handlers.Approved.{approve_operation-Approved}
use canton_treasury_dvp.Escrow.Handlers.Moved.{move_vault_tokens-Moved}
use canton_treasury_dvp.Escrow.Program.{
  Event, Call, transaction, elsewhere, initializes, locks, approves, cancels, releases, execute,
  step, run,
}
use canton_treasury_dvp.Escrow.Program.Attestations.{attestations, record_call}
use canton_treasury_dvp.Escrow.Program.Threshold.{fresh_ledger, MintSigned, accepted_mint_is_signed}

some_receipt-injective :
    (r q : LockReceipt) → ◌≡◌ {A = Option Account} (some (receipt r)) (some (receipt q)) → r ≡ q
some_receipt-injective r q h = ground arith

-- A receipt that is found after one write was there before, or was written.
one_write :
    (j k : Bytes) (v : Account) (r q : LockReceipt) (d : Dict Account)
    → lookup k d ≡ some (receipt r)
    → lookup k (insert j v d) ≡ some (receipt q)
    → (r ≡ q) ⊎ ((j ≡ k) × (v ≡ receipt q))
one_write j k v r q d before after = elim (Bool-cases (bytes_eq j k)) [
  | inl here ↦ inr ((bytes_eq_iff j k).0 here, ground (arith, after, here, lookup-insert j k v d))
  | inr away ↦ inl (ground (arith, before, after, away, lookup-insert j k v d))
]

-- After the writes of an approval and a receipt, it was there before, or is the one written.
two_writes :
    (i j k : Bytes) (a : OperationApproval) (w r q : LockReceipt) (d : Dict Account)
    → lookup k d ≡ some (receipt r)
    → lookup k (insert i (approval a) (insert j (receipt w) d)) ≡ some (receipt q)
    → (r ≡ q) ⊎ ((j ≡ k) × (w ≡ q))
two_writes i j k a w r q d before after = elim (Bool-cases (bytes_eq i k)) [
  | inl here ↦
      absurd (ground (arith, after, here, lookup-insert i k (approval a) (insert j (receipt w) d)))
  | inr away ↦
      let kept : lookup k (insert j (receipt w) d) ≡ some (receipt q) =
        ground (arith, after, away, lookup-insert i k (approval a) (insert j (receipt w) d)) in
      elim (one_write j k (receipt w) r q d before kept) [
        | inl same ↦ inl same
        | inr (here, written) ↦ inr (here, ground (arith, written))
      ]
]

final_status-other : (direction : ℕ) → final_status direction ≢ receipt_mint_authorized
final_status-other direction h = ground arith

module _ {T : Type 0} (rt : Runtime T) where
  -- The event is a request to mint for the receipt, and is signed by two.
  pub record IsMintRequest (before : Ledger T) (log : List (Event T)) (tokens : T) (e : Event T)
      (k : Bytes) : Type 0 where
    pub now : ℤ
    pub ctx : ApproveContext
    pub args : ApproveArgs
    pub request : e ≡ transaction now (approves ctx args)
    pub at_receipt : ctx.receipt.key ≡ k
    pub signed :
        MintSigned rt before
          (record_call rt before
            (approves ctx args)
            (attestations rt (fresh_ledger rt tokens) log []))
          ctx
          args

  module _ (k : Bytes) (r q : LockReceipt) (was_locked : r.status ≡ receipt_locked)
      (authorized : q.status ≡ receipt_mint_authorized) where
    changed : ¬ (r ≡ q)
    changed e =
        let same : r.status ≡ q.status = ap (λ (x : LockReceipt). x.status) e in
        ground (arith, same, was_locked, authorized)

    initialize-changed :
        (ctx : InitializeContext) (args : InitializeArgs) (before after : Ledger T)
        → initialize rt ctx args before ≡ ok after
        → lookup k before.accounts ≡ some (receipt r)
        → lookup k after.accounts ≡ some (receipt q)
        → ⊥
    initialize-changed ctx args before after h found left =
        let done = initialize-Initialized rt ctx args before after h in
        elim (one_write ctx.config.key k _ r q before.accounts found
          (subst (λ (l : Ledger T). lookup k l.accounts ≡ some (receipt q)) done.written left)) [
            | inl same ↦ changed same
            | inr (here, written) ↦ cc
          ]

    lock_confidential-changed :
        (ctx : LockContext) (args : LockArgs) (now : ℤ) (before after : Ledger T)
        → lock_confidential rt ctx args now before ≡ ok after
        → lookup k before.accounts ≡ some (receipt r)
        → lookup k after.accounts ≡ some (receipt q)
        → ⊥
    lock_confidential-changed ctx args now before after h found left =
        let done = lock_confidential-Locked rt ctx args now before after h in
        let vacant =
          check_lock-lookup rt before.accounts ctx args.operation done.opened done.loaded in
        elim (one_write ctx.receipt.key k _ r q before.accounts found
          (subst (λ (l : Ledger T). lookup k l.accounts ≡ some (receipt q)) done.written left)) [
            | inl same ↦ changed same
            | inr (here, written) ↦
                let empty : lookup k before.accounts ≡ none =
                  subst (λ x. lookup x before.accounts ≡ none) here vacant.1 in
                absurd (ground (arith, empty, found))
          ]

    move_vault_tokens-changed :
        (ctx : MoveContext) (args : MovementArgs) (direction : ℕ) (now : ℤ)
        (before after : Ledger T)
        → move_vault_tokens rt ctx args direction now before ≡ ok after
        → lookup k before.accounts ≡ some (receipt r)
        → lookup k after.accounts ≡ some (receipt q)
        → ⊥
    move_vault_tokens-changed ctx args direction now before after h found left =
        let done = move_vault_tokens-Moved rt ctx args direction now before after h in
        elim (two_writes ctx.approval.key ctx.receipt.key k _ _ r q before.accounts found
          (subst (λ (l : Ledger T). lookup k l.accounts ≡ some (receipt q)) done.written left)) [
            | inl same ↦ changed same
            | inr (here, written) ↦
                final_status-other direction
                  (ap (λ (x : LockReceipt). x.status) written ∙ authorized)
          ]

    approve_operation-receipt :
        (ctx : ApproveContext) (args : ApproveArgs) (now : ℤ) (before after : Ledger T)
        → approve_operation rt ctx args now before ≡ ok after
        → lookup k before.accounts ≡ some (receipt r)
        → lookup k after.accounts ≡ some (receipt q)
        → ctx.receipt.key ≡ k
    approve_operation-receipt ctx args now before after h found left =
        let done = approve_operation-Approved rt ctx args now before after h in
        elim (two_writes ctx.approval.key ctx.receipt.key k _ _ r q before.accounts found
          (subst (λ (l : Ledger T). lookup k l.accounts ≡ some (receipt q)) done.written left)) [
            | inl same ↦ absurd (changed same)
            | inr (here, written) ↦ here
          ]

    execute-IsMintRequest :
        (tokens : T) (es : List (Event T)) (now : ℤ) (call : Call) (after : Ledger T)
        → execute rt now call (run rt (fresh_ledger rt tokens) es) ≡ ok after
        → lookup k (run rt (fresh_ledger rt tokens) es).accounts ≡ some (receipt r)
        → lookup k after.accounts ≡ some (receipt q)
        → IsMintRequest (run rt (fresh_ledger rt tokens) es) es tokens (transaction now call) k
    unfolding execute cancel_confidential release_confidential
    execute-IsMintRequest tokens es now (initializes ctx args) after h found left =
        absurd (initialize-changed ctx args _ after h found left)
    execute-IsMintRequest tokens es now (locks ctx args) after h found left =
        absurd (lock_confidential-changed ctx args now _ after h found left)
    execute-IsMintRequest tokens es now (cancels ctx args) after h found left =
        absurd (move_vault_tokens-changed ctx args direction_cancel now _ after h found left)
    execute-IsMintRequest tokens es now (releases ctx args) after h found left =
        absurd (move_vault_tokens-changed ctx args direction_release now _ after h found left)
    execute-IsMintRequest tokens es now (approves ctx args) after h found left =
        let here =
          approve_operation-receipt ctx args now (run rt (fresh_ledger rt tokens) es) after h found
            left in
        record {
          now = now;
          ctx = ctx;
          args = args;
          request = refl;
          at_receipt = here;
          signed =
              accepted_mint_is_signed rt tokens es ctx args now after r q h
                (subst
                  (λ x. lookup x (run rt (fresh_ledger rt tokens) es).accounts ≡ some (receipt r))
                  (sym here) found)
                was_locked (subst (λ x. lookup x after.accounts ≡ some (receipt q)) (sym here) left)
                authorized;
        }

  -- Whatever event, after any history of the program, takes a locked receipt to the authorized status:
  -- it is an accepted request to mint for that receipt, and two different configured attesters have
  -- signed the digest of exactly this request, the one of the request itself included.
  pub mint_is_signed :
      (tokens : T) (es : List (Event T)) (e : Event T) (k : Bytes) (r q : LockReceipt)
      → lookup k (run rt (fresh_ledger rt tokens) es).accounts ≡ some (receipt r)
      → r.status ≡ receipt_locked
      → lookup k (step rt (run rt (fresh_ledger rt tokens) es) e).accounts ≡ some (receipt q)
      → q.status ≡ receipt_mint_authorized
      → IsMintRequest (run rt (fresh_ledger rt tokens) es) es tokens e k
  unfolding step
  mint_is_signed tokens es (elsewhere t) k r q found was_locked left authorized =
      absurd (changed k r q was_locked authorized (some_receipt-injective r q (sym found ∙ left)))
  mint_is_signed tokens es (transaction now call) k r q found was_locked left authorized =
      elim (Result-cases (execute rt now call (run rt (fresh_ledger rt tokens) es))) [
        | inl (after, done) ↦
            execute-IsMintRequest k r q was_locked authorized tokens es now call after done found
              (rw done at left)
        | inr (e, failed) ↦ absurd (
            changed k r q was_locked authorized
              (some_receipt-injective r q (sym found ∙ (rw failed at left))))
      ]
