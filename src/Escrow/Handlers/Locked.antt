-- ===== src/Escrow/Handlers/Locked.antt =====
-- What `lock_confidential` and `initialize` have checked and written when they succeed.
use canton_treasury_dvp.Base.{
  ℕ, ◌≡◌, true, false, [], ◌∷◌, none, some, lookup, insert, ok, bytes_eq, ℤ, on_ok, on_require,
  ok-injective, sym, ltb_ℤ, ◌<ℤ◌, bytes_eq_iff, ltb_ℤ_iff,
}
use canton_treasury_dvp.Escrow.Runtime.{Runtime}
use canton_treasury_dvp.Escrow.State.{
  BridgeConfig, config, receipt, config_seed, vault_authority_seed,
}
use canton_treasury_dvp.Escrow.Confidential.{
  TransferCiphertexts, parse_transfer_ciphertexts, require_confidential_account,
  confidential_transfer_cpi, transfer_instruction, pending_credit_counter, apply_pending_cpi,
  require_token_2022,
}
use canton_treasury_dvp.Escrow.Accounts.{
  Ledger, LockContext, InitializeContext, check_lock, check_initialize, require_unused,
}
use canton_treasury_dvp.Escrow.Requests.{LockArgs, InitializeArgs, distinct_attesters}
use canton_treasury_dvp.Escrow.Handlers.{
  lock_confidential, initialize, initial_config, new_receipt, commitment_of,
}
use canton_treasury_dvp.Escrow.Handlers.Loaded.{require_unused-lookup}

module _ {T : Type 0} (rt : Runtime T) where
  pub record Locked (ctx : LockContext) (args : LockArgs) (now : ℤ) (before after : Ledger T)
      : Type 0 where
    pub opened : BridgeConfig
    pub ciphertexts : TransferCiphertexts
    pub moved : T
    pub pending : ℕ
    pub applied : T
    pub loaded : check_lock rt before.accounts ctx args.operation ≡ ok opened
    pub mint : opened.mint ≡ ctx.mint.key
    pub vault : opened.vault ≡ ctx.vault.key
    pub timely : now <ℤ args.expiry
    pub parsed : parse_transfer_ciphertexts args.transfer_input ≡ ok ciphertexts
    pub paid :
        confidential_transfer_cpi rt ctx.token_program.key before.tokens
          (transfer_instruction rt ctx.source.key ctx.mint.key ctx.vault.key ctx.proofs
            ctx.source_authority.key args.transfer_input)
          args.transfer_input
          []
        ≡ ok moved
    pub credited :
        apply_pending_cpi rt ctx.token_program.key moved ctx.vault.key ctx.vault_authority.key
          pending args.vault_decryptable
          (vault_authority_seed ∷ (opened.vault_authority_bump ∷ []) ∷ [])
        ≡ ok applied
    pub written : after ≡ record {
      accounts =
          insert ctx.receipt.key
            (receipt (new_receipt rt args (commitment_of rt ciphertexts ctx.proofs)))
            before.accounts;
      tokens = applied;
    }

  pub lock_confidential-Locked :
      (ctx : LockContext) (args : LockArgs) (now : ℤ) (before after : Ledger T)
      → lock_confidential rt ctx args now before ≡ ok after
      → Locked ctx args now before after
  unfolding lock_confidential
  lock_confidential-Locked ctx args now before after h =
      on_ok (check_lock rt before.accounts ctx args.operation) _ h λ c loaded h1.
        on_require (bytes_eq c.mint ctx.mint.key) _ _ h1 λ mint h2.
          on_require (bytes_eq c.vault ctx.vault.key) _ _ h2 λ vault h3.
            on_require (bytes_eq c.token_program ctx.token_program.key) _ _ h3 λ _ h4.
              on_require (ltb_ℤ now args.expiry) _ _ h4 λ timely h5.
                on_ok
                  (require_confidential_account rt c.token_program c.mint none before.tokens
                    ctx.source.key false)
                  _ h5
                  λ _ _ h6.
                    on_ok
                      (require_confidential_account rt c.token_program c.mint
                        (some ctx.vault_authority.key) before.tokens ctx.vault.key true)
                      _ h6
                      λ _ _ h7.
                        on_ok (parse_transfer_ciphertexts args.transfer_input) _ h7
                          λ ciphertexts parsed h8.
                            on_ok
                              (confidential_transfer_cpi rt ctx.token_program.key before.tokens
                                (transfer_instruction rt ctx.source.key ctx.mint.key ctx.vault.key
                                  ctx.proofs ctx.source_authority.key args.transfer_input)
                                args.transfer_input [])
                              _ h8
                              λ moved paid h9.
                                on_ok (pending_credit_counter rt moved ctx.vault.key) _ h9
                                  λ pending _ h10.
                                    on_ok
                                      (apply_pending_cpi rt ctx.token_program.key moved
                                        ctx.vault.key ctx.vault_authority.key pending
                                        args.vault_decryptable
                                        (vault_authority_seed ∷ (c.vault_authority_bump ∷ []) ∷ []))
                                      _ h10
                                      λ applied credited h11. record {
                                        opened = c;
                                        ciphertexts = ciphertexts;
                                        moved = moved;
                                        pending = pending;
                                        applied = applied;
                                        loaded = loaded;
                                        mint = (bytes_eq_iff _ _).0 mint;
                                        vault = (bytes_eq_iff _ _).0 vault;
                                        timely = (ltb_ℤ_iff now args.expiry).0 timely;
                                        parsed = parsed;
                                        paid = paid;
                                        credited = credited;
                                        written = sym (ok-injective h11);
                                      }

  pub record Initialized (ctx : InitializeContext) (args : InitializeArgs) (before after : Ledger T)
      : Type 0 where
    pub unused : lookup ctx.config.key before.accounts ≡ none
    pub address :
        ctx.config.key ≡ rt.create_address (config_seed ∷ []) (rt.find_bump (config_seed ∷ []))
    pub distinct : distinct_attesters args.attesters ≡ true
    pub written : after ≡ record before {
      accounts = insert ctx.config.key (config (initial_config rt ctx args)) before.accounts;
    }

  check_initialize-lookup :
      (before : Ledger T) (ctx : InitializeContext)
      → check_initialize rt before.accounts ctx ≡ ok tt
      → (lookup ctx.config.key before.accounts ≡ none)
        × (ctx.config.key ≡ rt.create_address (config_seed ∷ []) (rt.find_bump (config_seed ∷ [])))
  unfolding check_initialize
  check_initialize-lookup before ctx h = on_require ctx.payer.is_writable _ _ h λ _ h1.
      on_require ctx.payer.is_signer _ _ h1 λ _ h2.
        on_require
          (bytes_eq ctx.config.key
            (rt.create_address (config_seed ∷ []) (rt.find_bump (config_seed ∷ []))))
          _ _ h2
          λ address h3. on_ok (require_unused before.accounts ctx.config.key) _ h3 λ _ unused h4. (
            require_unused-lookup before.accounts ctx.config.key unused,
            (bytes_eq_iff _ _).0 address,
          )

  pub initialize-Initialized :
      (ctx : InitializeContext) (args : InitializeArgs) (before after : Ledger T)
      → initialize rt ctx args before ≡ ok after
      → Initialized ctx args before after
  unfolding initialize
  initialize-Initialized ctx args before after h =
      on_ok (check_initialize rt before.accounts ctx) _ h λ _ checked h1.
        on_ok (require_token_2022 rt ctx.token_program.key) _ h1 λ _ _ h2.
          on_require (distinct_attesters args.attesters) _ _ h2 λ distinct h3.
            on_ok
              (require_confidential_account rt ctx.token_program.key ctx.mint.key
                (some ctx.vault_authority.key) before.tokens ctx.vault.key true)
              _ h3
              λ _ _ h4. record {
                unused = (check_initialize-lookup before ctx checked).0;
                address = (check_initialize-lookup before ctx checked).1;
                distinct = distinct;
                written = sym (ok-injective h4);
              }
