-- ===== src/Escrow/Handlers/Moved.antt =====
-- What `move_vault_tokens` has checked and written when it succeeds.
use canton_treasury_dvp.Base.{
  ℕ, ◌≡◌, true, false, [], ◌∷◌, none, some, insert, ok, bytes_eq, ℤ, on_ok, on_require,
  ok-injective, sym, arith, ◌≤◌, ◌<ℤ◌, bytes_eq_iff, eqb_ℤ_iff,
}
use canton_treasury_dvp.Escrow.Canonical.{
  operation_digest, direction_cancel, receipt_locked, receipt_mint_authorized,
}
use canton_treasury_dvp.Escrow.Runtime.{Runtime}
use canton_treasury_dvp.Escrow.State.{
  BridgeConfig, LockReceipt, OperationApproval, receipt, approval, distinct_signers,
  vault_authority_seed,
}
use canton_treasury_dvp.Escrow.Confidential.{
  TransferCiphertexts, parse_transfer_ciphertexts, require_confidential_account,
  confidential_transfer_cpi, transfer_instruction,
}
use canton_treasury_dvp.Escrow.Accounts.{Ledger, Opened, MoveContext, check_move}
use canton_treasury_dvp.Escrow.Requests.{MovementArgs, check_movement}
use canton_treasury_dvp.Escrow.Handlers.{
  move_vault_tokens, movement_operation, commitment_of, final_status,
}

-- What the tests of a movement leave.
pub record Permitted (direction : ℕ) (c : BridgeConfig) (r : LockReceipt) (a : OperationApproval)
    (ctx : MoveContext) (args : MovementArgs) (now : ℤ) : Type 0 where
  pub vault : c.vault ≡ ctx.vault.key
  pub mint : c.mint ≡ ctx.mint.key
  pub destination : ctx.destination.key ≡ args.destination
  pub timely : now <ℤ a.expiry
  pub expiry : a.expiry ≡ args.expiry
  pub unused : a.consumed ≡ false
  pub directed : a.direction ≡ direction
  pub quorum : 2 ≤ distinct_signers a
  pub cancels :
      direction ≡ direction_cancel
      → (r.status ≡ receipt_locked) × (r.destination ≡ args.destination)
  pub releases : ¬ (direction ≡ direction_cancel) → r.status ≡ receipt_mint_authorized
  pub amount : r.amount_commitment ≡ args.amount_commitment
  pub reservation : r.zama_reservation ≡ args.zama_reservation
  pub previous : r.previous_operation ≡ args.previous_operation

pub check_movement-Permitted :
    (direction : ℕ) (c : BridgeConfig) (r : LockReceipt) (a : OperationApproval) (ctx : MoveContext)
    (args : MovementArgs) (now : ℤ)
    → check_movement direction c r a ctx args now ≡ ok tt
    → Permitted direction c r a ctx args now
unfolding check_movement
check_movement-Permitted direction c r a ctx args now h = ground (
  arith,
  bytes_eq_iff c.vault ctx.vault.key,
  bytes_eq_iff c.mint ctx.mint.key,
  bytes_eq_iff ctx.destination.key args.destination,
  bytes_eq_iff r.amount_commitment args.amount_commitment,
  bytes_eq_iff r.zama_reservation args.zama_reservation,
  bytes_eq_iff r.previous_operation args.previous_operation,
  bytes_eq_iff r.destination args.destination,
  eqb_ℤ_iff a.expiry args.expiry,
)

module _ {T : Type 0} (rt : Runtime T) where
  pub record Moved (ctx : MoveContext) (args : MovementArgs) (direction : ℕ) (now : ℤ)
      (before after : Ledger T) : Type 0 where
    pub opened : Opened
    pub ciphertexts : TransferCiphertexts
    pub moved : T
    pub loaded : check_move rt before.accounts ctx ≡ ok opened
    pub permitted : Permitted direction opened.config opened.receipt opened.approval ctx args now
    pub vault_ready :
        require_confidential_account rt opened.config.token_program opened.config.mint
          (some ctx.vault_authority.key)
          before.tokens
          ctx.vault.key
          true
        ≡ ok tt
    pub destination_ready :
        require_confidential_account rt opened.config.token_program opened.config.mint none
          before.tokens ctx.destination.key false
        ≡ ok tt
    pub parsed : parse_transfer_ciphertexts args.transfer_input ≡ ok ciphertexts
    pub digest :
        opened.approval.digest
        ≡ operation_digest rt.hash (
            movement_operation rt direction ctx opened.config opened.receipt args
              (commitment_of rt ciphertexts ctx.proofs))
    pub paid :
        confidential_transfer_cpi rt ctx.token_program.key before.tokens
          (transfer_instruction rt ctx.vault.key ctx.mint.key ctx.destination.key ctx.proofs
            ctx.vault_authority.key args.transfer_input)
          args.transfer_input
          (vault_authority_seed ∷ (opened.config.vault_authority_bump ∷ []) ∷ [])
        ≡ ok moved
    pub written : after ≡ record {
      accounts = insert ctx.approval.key (approval (record opened.approval { consumed = true })) (
          insert ctx.receipt.key
            (receipt (record opened.receipt { status = final_status direction }))
            before.accounts);
      tokens = moved;
    }

  -- A movement that succeeds was permitted by the loaded configuration, receipt and approval: the
  -- vault, mint and destination are the right ones, the approval is unexpired, unused, for this
  -- direction and signed by two, a cancellation finds the receipt locked and pays its own
  -- destination, any other movement finds it authorized, and the commitment, reservation and
  -- previous operation are the receipt's. The approval's digest is that of the movement, the token
  -- program has moved the tokens, and the ledger after it differs only by the used approval, the
  -- receipt's final status and the token program's state.
  pub move_vault_tokens-Moved :
      (ctx : MoveContext) (args : MovementArgs) (direction : ℕ) (now : ℤ) (before after : Ledger T)
      → move_vault_tokens rt ctx args direction now before ≡ ok after
      → Moved ctx args direction now before after
  unfolding move_vault_tokens
  move_vault_tokens-Moved ctx args direction now before after h =
      on_ok (check_move rt before.accounts ctx) _ h λ opened loaded h1.
        on_ok (check_movement direction opened.config opened.receipt opened.approval ctx args now) _
          h1
          λ _ permitted h2.
            on_ok
              (require_confidential_account rt opened.config.token_program opened.config.mint
                (some ctx.vault_authority.key) before.tokens ctx.vault.key true)
              _ h2
              λ _ vault_ready h3.
                on_ok
                  (require_confidential_account rt opened.config.token_program opened.config.mint
                    none before.tokens ctx.destination.key false)
                  _ h3
                  λ _ destination_ready h4.
                    on_ok (parse_transfer_ciphertexts args.transfer_input) _ h4
                      λ ciphertexts parsed h5.
                        on_require
                          (bytes_eq opened.approval.digest (
                            operation_digest rt.hash (
                              movement_operation rt direction ctx opened.config opened.receipt args
                                (commitment_of rt ciphertexts ctx.proofs))))
                          _ _ h5
                          λ digest h6.
                            on_ok
                              (confidential_transfer_cpi rt ctx.token_program.key before.tokens
                                (transfer_instruction rt ctx.vault.key ctx.mint.key
                                  ctx.destination.key ctx.proofs ctx.vault_authority.key
                                  args.transfer_input)
                                args.transfer_input
                                (vault_authority_seed
                                  ∷ (opened.config.vault_authority_bump ∷ [])
                                  ∷ []))
                              _ h6
                              λ moved paid h7. record {
                                opened = opened;
                                ciphertexts = ciphertexts;
                                moved = moved;
                                loaded = loaded;
                                permitted =
                                    check_movement-Permitted direction opened.config opened.receipt
                                      opened.approval ctx args now permitted;
                                vault_ready = vault_ready;
                                destination_ready = destination_ready;
                                parsed = parsed;
                                digest = (bytes_eq_iff _ _).0 digest;
                                paid = paid;
                                written = sym (ok-injective h7);
                              }
