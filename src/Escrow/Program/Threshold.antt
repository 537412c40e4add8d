-- ===== src/Escrow/Program/Threshold.antt =====
-- The two-of-three rule for movements and mints, over a history of transactions.
use canton_treasury_dvp.Base.{
  ℕ, ◌≡◌, ◌≤◌, ◌≢◌, sym, Option, some, List, [], Bytes, lookup, ok, ℤ, arith, ◌∙◌, ap, subst,
  insert, lookup-insert, bytes_eq_refl, Dict,
}
use canton_treasury_dvp.Escrow.Canonical.{
  operation_digest, direction_mint, receipt_locked, receipt_mint_authorized,
}
use canton_treasury_dvp.Escrow.Runtime.{Runtime}
use canton_treasury_dvp.Escrow.State.{
  Account, LockReceipt, OperationApproval, BridgeConfig, config, receipt, approval, attester_index,
  distinct_signers,
}
use canton_treasury_dvp.Escrow.State.Quorum.{quorum-IsPair}
use canton_treasury_dvp.Escrow.Accounts.{Ledger, ApproveContext, MoveContext}
use canton_treasury_dvp.Escrow.Requests.{ApproveArgs, MovementArgs, authorize_mint}
use canton_treasury_dvp.Escrow.Handlers.{
  approve_operation, move_vault_tokens, request_operation, movement_operation, commitment_of,
}
use canton_treasury_dvp.Escrow.Handlers.Loaded.{check_approve-ApproveLoaded, check_move-MoveLoaded}
use canton_treasury_dvp.Escrow.Handlers.Approved.{approve_operation-Approved}
use canton_treasury_dvp.Escrow.Handlers.Moved.{move_vault_tokens-Moved}
use canton_treasury_dvp.Escrow.Confidential.{parse_transfer_ciphertexts, TransferCiphertexts}
use canton_treasury_dvp.Escrow.Program.{Event, run, approves}
use canton_treasury_dvp.Escrow.Program.Attestations.{
  Log, Logged, config_key, Backed, attestations, record_call,
}
use canton_treasury_dvp.Escrow.Program.Attestations.Events.{
  run-Inv, start-Inv, approve_operation-Backed,
}

-- Two different keys of the configuration in force have signed one digest for one approval.
pub record TwoSigned {T : Type 0} (rt : Runtime T) (ledger : Ledger T) (l : Log) (k digest : Bytes)
    : Type 0 where
  pub config : BridgeConfig
  pub first : Bytes
  pub second : Bytes
  pub first_index : ℕ
  pub second_index : ℕ
  pub in_force : lookup (config_key rt) ledger.accounts ≡ some (Account.config config)
  pub different : first ≢ second
  pub first_known : attester_index config first ≡ some first_index
  pub second_known : attester_index config second ≡ some second_index
  pub first_logged :
      Logged (record { config = config; attester = first; approval = k; digest = digest }) l
  pub second_logged :
      Logged (record { config = config; attester = second; approval = k; digest = digest }) l

-- A locked receipt becomes authorized only by a mint request with two signers.
authorize_mint-quorum :
    (direction : ℕ) (a : OperationApproval) (r r' : LockReceipt)
    → authorize_mint direction a r ≡ ok r'
    → r.status ≡ receipt_locked
    → r'.status ≡ receipt_mint_authorized
    → (direction ≡ direction_mint) × (2 ≤ distinct_signers a)
unfolding authorize_mint
authorize_mint-quorum direction a r r' h locked authorized = ground arith

-- What stands at the receipt's address after an accepted request.
abbrev receipt_write :
    ApproveContext → OperationApproval → LockReceipt → Dict Account → Option Account
receipt_write ctx a r d =
    lookup ctx.receipt.key
      (insert ctx.approval.key (approval a) (insert ctx.receipt.key (receipt r) d))

written_receipt :
    (ctx : ApproveContext) (a : OperationApproval) (r q : LockReceipt) (d : Dict Account)
    → receipt_write ctx a r d ≡ some (receipt q)
    → r ≡ q
written_receipt ctx a r q d h = ground (
  arith,
  h,
  lookup-insert ctx.approval.key ctx.receipt.key (approval a)
      (insert ctx.receipt.key (receipt r) d),
  lookup-insert ctx.receipt.key ctx.receipt.key (receipt r) d,
  bytes_eq_refl ctx.receipt.key,
)

module _ {T : Type 0} (rt : Runtime T) where
  -- The start of the program: no account exists.
  abbrev pub fresh_ledger : T → Ledger T
  fresh_ledger tokens = record { accounts = []; tokens = tokens }

  Backed-TwoSigned :
      (ledger : Ledger T) (l : Log) (k : Bytes) (a : OperationApproval)
      → Backed rt ledger.accounts l k a
      → 2 ≤ distinct_signers a
      → TwoSigned rt ledger l k a.digest
  Backed-TwoSigned ledger l k a b two =
      let (i, j, pair, bit_i, bit_j) = quorum-IsPair a (omega (arith, b.small)) two in
      let vi = b.bits i (omega arith) bit_i in
      let vj = b.bits j (omega arith) bit_j in
      let same : vj.config ≡ vi.config = ground (arith, vi.in_force, vj.in_force) in
      record {
        config = vi.config;
        first = vi.attester;
        second = vj.attester;
        first_index = i;
        second_index = j;
        in_force = vi.in_force;
        different = λ e. ground (arith, e, same, vi.known, vj.known, pair);
        first_known = vi.known;
        second_known = subst (λ c. attester_index c vj.attester ≡ some j) same vj.known;
        first_logged = vi.logged;
        second_logged =
            subst
              (λ c.
                Logged
                  (record { config = c; attester = vj.attester; approval = k; digest = a.digest })
                  l)
              same vj.logged;
      }

  -- Two signatures for the digest of this movement, at the receipt and configuration on the ledger.
  abbrev pub MovementSigned : Ledger T → Log → MoveContext → MovementArgs → ℕ → Type 0
  MovementSigned ledger l ctx args direction =
      (r : LockReceipt) × (c : BridgeConfig) × (t : TransferCiphertexts) × (lookup ctx.receipt.key
          ledger.accounts
        ≡ some (receipt r))
      × (lookup ctx.config.key ledger.accounts ≡ some (config c))
      × (parse_transfer_ciphertexts args.transfer_input ≡ ok t)
      × TwoSigned rt ledger l ctx.approval.key (
          operation_digest rt.hash
            (movement_operation rt direction ctx c r args (commitment_of rt t ctx.proofs)))

  -- Two signatures for the digest of this request to mint.
  abbrev pub MintSigned : Ledger T → Log → ApproveContext → ApproveArgs → Type 0
  MintSigned ledger l ctx args =
      (args.direction ≡ direction_mint)
      × ((c : BridgeConfig) × (lookup ctx.config.key ledger.accounts ≡ some (config c))
          × TwoSigned rt ledger l ctx.approval.key
              (operation_digest rt.hash (request_operation rt ctx c args)))

  -- A movement out of the vault that succeeds after any history of the program has two different
  -- configured attesters behind it, whose accepted signatures in that history are over the digest
  -- of exactly this movement: its chain, program, configuration, operation, direction, receipt,
  -- destination, commitments, expiry and proof data.
  pub movement_is_signed :
      (tokens : T) (es : List (Event T)) (ctx : MoveContext) (args : MovementArgs) (direction : ℕ)
      (now : ℤ) (after : Ledger T)
      → move_vault_tokens rt ctx args direction now (run rt (fresh_ledger tokens) es) ≡ ok after
      → MovementSigned
          (run rt (fresh_ledger tokens) es)
          (attestations rt (fresh_ledger tokens) es [])
          ctx
          args
          direction
  movement_is_signed tokens es ctx args direction now after h =
      let done =
        move_vault_tokens-Moved rt ctx args direction now (run rt (fresh_ledger tokens) es) after
          h in
      let found =
        check_move-MoveLoaded rt (run rt (fresh_ledger tokens) es).accounts ctx done.opened
          done.loaded in
      let v = run-Inv rt (fresh_ledger tokens) es [] (start-Inv rt) in
      (
        done.opened.receipt,
        done.opened.config,
        done.ciphertexts,
        found.receipt_found,
        found.config_found,
        done.parsed,
        subst
            (TwoSigned rt (run rt (fresh_ledger tokens) es)
              (attestations rt (fresh_ledger tokens) es []) ctx.approval.key)
            done.digest
            (Backed-TwoSigned (run rt (fresh_ledger tokens) es)
              (attestations rt (fresh_ledger tokens) es []) ctx.approval.key done.opened.approval
              (v.approvals ctx.approval.key done.opened.approval found.approval_found)
              done.permitted.quorum),
      )

  -- An accepted request that takes a locked receipt to the authorized status, after any history of
  -- the program, is a mint request, and two different configured attesters have signed the digest
  -- of exactly this request, the one of the request itself included.
  pub accepted_mint_is_signed :
      (tokens : T) (es : List (Event T)) (ctx : ApproveContext) (args : ApproveArgs) (now : ℤ)
      (after : Ledger T) (r q : LockReceipt)
      → approve_operation rt ctx args now (run rt (fresh_ledger tokens) es) ≡ ok after
      → lookup ctx.receipt.key (run rt (fresh_ledger tokens) es).accounts ≡ some (receipt r)
      → r.status ≡ receipt_locked
      → lookup ctx.receipt.key after.accounts ≡ some (receipt q)
      → q.status ≡ receipt_mint_authorized
      → MintSigned
          (run rt (fresh_ledger tokens) es)
          (record_call rt
            (run rt (fresh_ledger tokens) es)
            (approves ctx args)
            (attestations rt (fresh_ledger tokens) es []))
          ctx
          args
  accepted_mint_is_signed tokens es ctx args now after r q h before_found before_locked after_found
        after_authorized =
      let before = run rt (fresh_ledger tokens) es in
      let l = attestations rt (fresh_ledger tokens) es [] in
      let done = approve_operation-Approved rt ctx args now before after h in
      let found =
        check_approve-ApproveLoaded rt before.accounts ctx args.operation args.direction done.opened
          done.loaded in
      let backed =
        approve_operation-Backed rt ctx args now before after l done
          (run-Inv rt (fresh_ledger tokens) es [] (start-Inv rt)) in
      let written : receipt_write ctx done.final done.receipt_after before.accounts
          ≡ some (receipt q) =
        ap (λ (x : Ledger T). lookup ctx.receipt.key x.accounts) (sym done.written) ∙ after_found in
      let became = written_receipt ctx done.final done.receipt_after q before.accounts written in
      let opened : done.opened.receipt ≡ r = ground (arith, found.receipt_found, before_found) in
      let rule =
        authorize_mint-quorum args.direction done.final done.opened.receipt done.receipt_after
          done.authorized (ap (λ (x : LockReceipt). x.status) opened ∙ before_locked)
          (ap (λ (x : LockReceipt). x.status) became ∙ after_authorized) in
      (
        rule.0,
        (
          done.opened.config,
          found.config_found,
          subst (TwoSigned rt before (record_call rt before (approves ctx args) l) ctx.approval.key)
              backed.1
              (Backed-TwoSigned before (record_call rt before (approves ctx args) l)
                ctx.approval.key done.final backed.0 rule.1),
        ),
      )
