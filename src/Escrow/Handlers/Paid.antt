-- ===== src/Escrow/Handlers/Paid.antt =====
-- handlers.rs and confidential.rs: a movement out of the vault, told without the program's own tests.
use canton_treasury_dvp.Base.{
  ℕ, ◌≡◌, ◌≢◌, refl, sym, ap, ◌∙◌, subst, List, Bool, true, false, none, some, [], ◌∷◌, Bytes,
  Option, lookup, insert, lookup-insert, ok, bytes_eq, bytes_eq_iff, ℤ, on_require, on_some,
  ok_or-some, if◌then◌else◌, length, ◌==◌, arith, Dict,
}
use native.Mathlib.Decide.{ℕ_discrete}
use canton_treasury_dvp.Escrow.Canonical.{
  operation_digest, proof_commitment, direction_cancel, receipt_cancelled, receipt_released,
}
use canton_treasury_dvp.Escrow.Runtime.{Runtime, TokenAccount, ConfidentialTransferAccount}
use canton_treasury_dvp.Escrow.State.{
  Account, BridgeConfig, LockReceipt, OperationApproval, receipt, approval, vault_authority_seed,
  receipt_seed, approval_seed,
}
use canton_treasury_dvp.Escrow.Confidential.{
  TransferCiphertexts, require_token_2022, require_owner, require_credits,
  require_confidential_account, confidential_transfer_cpi, transfer_instruction,
}
use canton_treasury_dvp.Escrow.Confidential.Transfer.{Packs, parse_transfer_ciphertexts-Packs}
use canton_treasury_dvp.Escrow.Accounts.{Ledger, MoveContext}
use canton_treasury_dvp.Escrow.Requests.{MovementArgs}
use canton_treasury_dvp.Escrow.Handlers.{move_vault_tokens, final_status}
use canton_treasury_dvp.Escrow.Handlers.Loaded.{check_move-MoveLoaded}
use canton_treasury_dvp.Escrow.Handlers.Moved.{Permitted, move_vault_tokens-Moved}

-- The status in which a movement leaves its receipt.
pub data Ends : ℕ → ℕ → Type 0 where
  cancels : Ends direction_cancel receipt_cancelled
  releases : (direction : ℕ) → direction ≢ direction_cancel → Ends direction receipt_released

final_status-Ends : (direction : ℕ) → Ends direction (final_status direction)
final_status-Ends direction = elim (ℕ_discrete direction direction_cancel) [
  | yes e ↦ subst (λ d. Ends d (final_status d)) (sym e) cancels
  | no ne ↦
      let released : final_status direction ≡ receipt_released = ground (arith, ne) in
      subst (Ends direction) (sym released) (releases direction ne)
]

approval_key_other :
    (d : Dict Account) (i j : Bytes) (a : OperationApproval) (r : LockReceipt)
    → lookup i d ≡ some (approval a)
    → lookup j d ≡ some (receipt r)
    → i ≢ j
approval_key_other d i j a r at_i at_j e =
    let both : ◌≡◌ {A = Option Account} (some (approval a)) (some (receipt r)) =
      sym at_i ∙ ap (λ k. lookup k d) e ∙ at_j in
    absurd (ground (arith, both))

module _ {T : Type 0} (rt : Runtime T) where
  -- A token account of Token-2022 for a mint, with its confidential extension.
  pub record IsConfidential (program mint : Bytes) (tokens : T) (account : Bytes) : Type 0 where
    pub supported : program ≡ rt.token_2022
    pub owned : rt.account_owner tokens account ≡ rt.token_2022
    pub state : TokenAccount
    pub unpacked : rt.unpack tokens account ≡ some state
    pub same_mint : state.mint ≡ mint
    pub extension : ConfidentialTransferAccount
    pub extended : state.confidential ≡ some extension

  vault_account :
      (program mint owner : Bytes) (tokens : T) (account : Bytes)
      → require_confidential_account rt program mint (some owner) tokens account true ≡ ok tt
      → (v : IsConfidential program mint tokens account) × (v.state.owner ≡ owner)
        × (v.extension.allow_non_confidential_credits ≡ false)
  unfolding require_confidential_account require_token_2022 require_owner require_credits
  vault_account program mint owner tokens account h =
      on_require (bytes_eq program rt.token_2022) _ _ h λ supported h1.
        on_require (bytes_eq (rt.account_owner tokens account) rt.token_2022) _ _ h1 λ owned h2.
          on_some (rt.unpack tokens account) _ _ h2 λ state unpacked h3.
            on_require (bytes_eq state.mint mint) _ _ h3 λ same_mint h4.
              on_require (bytes_eq state.owner owner) _ _ h4 λ same_owner h5.
                on_some state.confidential _ _ h5 λ extension extended h6. (
                  record {
                    supported = (bytes_eq_iff _ _).0 supported;
                    owned = (bytes_eq_iff _ _).0 owned;
                    state = state;
                    unpacked = unpacked;
                    same_mint = (bytes_eq_iff _ _).0 same_mint;
                    extension = extension;
                    extended = extended;
                  },
                  (bytes_eq_iff _ _).0 same_owner,
                  no_credits extension.allow_non_confidential_credits h6,
                )
    where
      no_credits : (b : Bool) → require_credits rt true b ≡ ok tt → b ≡ false
      no_credits true h = cc
      no_credits false h = refl

  other_account :
      (program mint : Bytes) (tokens : T) (account : Bytes)
      → require_confidential_account rt program mint none tokens account false ≡ ok tt
      → IsConfidential program mint tokens account
  unfolding require_confidential_account require_token_2022 require_owner require_credits
  other_account program mint tokens account h =
      on_require (bytes_eq program rt.token_2022) _ _ h λ supported h1.
        on_require (bytes_eq (rt.account_owner tokens account) rt.token_2022) _ _ h1 λ owned h2.
          on_some (rt.unpack tokens account) _ _ h2 λ state unpacked h3.
            on_require (bytes_eq state.mint mint) _ _ h3 λ same_mint h4.
              on_some state.confidential _ _ h4 λ extension extended h5. record {
                supported = (bytes_eq_iff _ _).0 supported;
                owned = (bytes_eq_iff _ _).0 owned;
                state = state;
                unpacked = unpacked;
                same_mint = (bytes_eq_iff _ _).0 same_mint;
                extension = extension;
                extended = extended;
              }

  invoked :
      (program : Bytes) (tokens moved : T) (ctx : MoveContext) (input : Bytes) (seeds : List Bytes)
      → confidential_transfer_cpi rt program tokens
          (transfer_instruction rt ctx.vault.key ctx.mint.key ctx.destination.key ctx.proofs
            ctx.vault_authority.key input)
          input
          seeds
        ≡ ok moved
      → (program ≡ rt.token_2022)
        × (rt.invoke tokens
              (record {
                program_id = rt.token_2022;
                accounts =
                    record { pubkey = ctx.vault.key; is_signer = false; is_writable = true }
                    ∷ record { pubkey = ctx.mint.key; is_signer = false; is_writable = false }
                    ∷ record { pubkey = ctx.destination.key; is_signer = false; is_writable = true }
                    ∷ record {
                      pubkey = ctx.proofs.equality;
                      is_signer = false;
                      is_writable = false;
                    }
                    ∷ record {
                      pubkey = ctx.proofs.validity;
                      is_signer = false;
                      is_writable = false;
                    }
                    ∷ record { pubkey = ctx.proofs.range; is_signer = false; is_writable = false }
                    ∷ record {
                      pubkey = ctx.vault_authority.key;
                      is_signer = true;
                      is_writable = false;
                    }
                    ∷ [];
                input = 27 ∷ 7 ∷ input;
              })
              seeds
            ≡ some moved)
  unfolding confidential_transfer_cpi transfer_instruction require_token_2022
  invoked program tokens moved ctx input seeds h =
      on_require (bytes_eq program rt.token_2022) _ _ h λ supported h1.
        on_require (length input == 167) _ _ h1
          λ size h2. ((bytes_eq_iff _ _).0 supported, ok_or-some _ _ h2)

  pub record Paid (ctx : MoveContext) (args : MovementArgs) (direction : ℕ) (now : ℤ)
      (before after : Ledger T) : Type 0 where
    pub config : BridgeConfig
    pub receipt : LockReceipt
    pub approval : OperationApproval
    pub parts : TransferCiphertexts
    pub config_found : lookup ctx.config.key before.accounts ≡ some (Account.config config)
    pub receipt_found : lookup ctx.receipt.key before.accounts ≡ some (Account.receipt receipt)
    pub approval_found : lookup ctx.approval.key before.accounts ≡ some (Account.approval approval)
    pub receipt_address :
        ctx.receipt.key ≡ rt.create_address (receipt_seed ∷ receipt.operation ∷ []) receipt.bump
    pub approval_address :
        ctx.approval.key
        ≡ rt.create_address
            (approval_seed ∷ receipt.operation ∷ (direction ∷ []) ∷ [])
            approval.bump
    pub authority_address :
        ctx.vault_authority.key
        ≡ rt.create_address (vault_authority_seed ∷ []) config.vault_authority_bump
    pub permitted : Permitted direction config receipt approval ctx args now
    pub vault : IsConfidential config.token_program config.mint before.tokens ctx.vault.key
    pub vault_owner : vault.state.owner ≡ ctx.vault_authority.key
    pub vault_closed : vault.extension.allow_non_confidential_credits ≡ false
    pub destination :
        IsConfidential config.token_program config.mint before.tokens ctx.destination.key
    pub packed : Packs args.transfer_input parts
    pub digest :
        approval.digest
        ≡ operation_digest rt.hash (record {
          chain_id = config.chain_id;
          program_id = rt.program_id;
          config = ctx.config.key;
          operation = receipt.operation;
          direction = direction;
          lock_receipt = ctx.receipt.key;
          destination = args.destination;
          amount_commitment = args.amount_commitment;
          zama_reservation = args.zama_reservation;
          previous_operation = args.previous_operation;
          expiry = args.expiry;
          proof_commitment =
              proof_commitment rt.hash parts.decryptable parts.auditor_lo parts.auditor_hi
                ctx.proofs.equality ctx.proofs.validity ctx.proofs.range;
        })
    pub paid :
        rt.invoke before.tokens
          (record {
            program_id = rt.token_2022;
            accounts =
                record { pubkey = ctx.vault.key; is_signer = false; is_writable = true }
                ∷ record { pubkey = ctx.mint.key; is_signer = false; is_writable = false }
                ∷ record { pubkey = ctx.destination.key; is_signer = false; is_writable = true }
                ∷ record { pubkey = ctx.proofs.equality; is_signer = false; is_writable = false }
                ∷ record { pubkey = ctx.proofs.validity; is_signer = false; is_writable = false }
                ∷ record { pubkey = ctx.proofs.range; is_signer = false; is_writable = false }
                ∷ record { pubkey = ctx.vault_authority.key; is_signer = true; is_writable = false }
                ∷ [];
            input = 27 ∷ 7 ∷ args.transfer_input;
          })
          (vault_authority_seed ∷ (config.vault_authority_bump ∷ []) ∷ [])
        ≡ some after.tokens
    pub final : ℕ
    pub ends : Ends direction final
    pub distinct : ctx.approval.key ≢ ctx.receipt.key
    pub written :
        (k : Bytes)
        → lookup k after.accounts ≡ (
            if bytes_eq ctx.approval.key k
            then some (Account.approval (record approval { consumed = true }))
            else if bytes_eq ctx.receipt.key k
            then some (Account.receipt (record receipt { status = final }))
            else lookup k before.accounts)

  -- A movement out of the vault that succeeds. The accounts given hold a configuration, the receipt
  -- and its approval for this direction, at the addresses derived from the operation. The vault, mint
  -- and destination are the right ones; the approval is unexpired, unused and signed by two; a
  -- cancellation finds the receipt locked and pays its own destination, any other movement finds it
  -- authorized; and the commitment, reservation and previous operation are the receipt's. Vault and
  -- destination are confidential accounts of Token-2022 for the mint, the vault under its authority
  -- and closed to public credits. The approval's digest is that of this movement with the proofs
  -- given. Token-2022 has done the confidential transfer from the vault to the destination, signed by
  -- the vault's authority. Of the program's accounts, exactly the approval, now used, and the receipt,
  -- now cancelled or released by its direction, have changed.
  pub move_vault_tokens-Paid :
      (ctx : MoveContext) (args : MovementArgs) (direction : ℕ) (now : ℤ) (before after : Ledger T)
      → move_vault_tokens rt ctx args direction now before ≡ ok after
      → Paid ctx args direction now before after
  move_vault_tokens-Paid ctx args direction now before after h =
      let done = move_vault_tokens-Moved rt ctx args direction now before after h in
      let o = done.opened in
      let found = check_move-MoveLoaded rt before.accounts ctx o done.loaded in
      let v =
        vault_account o.config.token_program o.config.mint ctx.vault_authority.key before.tokens
          ctx.vault.key done.vault_ready in
      let call =
        invoked ctx.token_program.key before.tokens done.moved ctx args.transfer_input _
          done.paid in
      record {
        config = o.config;
        receipt = o.receipt;
        approval = o.approval;
        parts = done.ciphertexts;
        config_found = found.config_found;
        receipt_found = found.receipt_found;
        approval_found = found.approval_found;
        receipt_address = found.receipt_address;
        approval_address =
            subst
              (λ d.
                ctx.approval.key
                ≡ rt.create_address (approval_seed ∷ o.receipt.operation ∷ (d ∷ []) ∷ [])
                    o.approval.bump)
              done.permitted.directed found.approval_address;
        authority_address = found.authority_address;
        permitted = done.permitted;
        vault = v.0;
        vault_owner = v.1;
        vault_closed = v.2;
        destination =
            other_account o.config.token_program o.config.mint before.tokens ctx.destination.key
              done.destination_ready;
        packed = parse_transfer_ciphertexts-Packs args.transfer_input done.ciphertexts done.parsed;
        digest = done.digest;
        paid = call.1 ∙ ap (λ (l : Ledger T). some l.tokens) (sym done.written);
        final = final_status direction;
        ends = final_status-Ends direction;
        distinct =
            approval_key_other before.accounts ctx.approval.key ctx.receipt.key o.approval o.receipt
              found.approval_found found.receipt_found;
        written = λ k.
            ap (λ (l : Ledger T). lookup k l.accounts) done.written
            ∙ (lookup-insert ctx.approval.key k (approval (record (o.approval) { consumed = true }))
                  (insert ctx.receipt.key
                    (receipt (record (o.receipt) { status = final_status direction }))
                    before.accounts)
                ∙ ap
                    (λ rest.
                      if bytes_eq ctx.approval.key k
                      then some (approval (record (o.approval) { consumed = true }))
                      else rest)
                    (lookup-insert ctx.receipt.key k
                      (receipt (record (o.receipt) { status = final_status direction }))
                      before.accounts));
      }
