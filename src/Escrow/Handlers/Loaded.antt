-- ===== src/Escrow/Handlers/Loaded.antt =====
-- What the account checks have established when they pass.
use canton_treasury_dvp.Base.{
  ℕ, ◌≡◌, List, [], ◌∷◌, none, some, Bytes, Dict, lookup, ok, ◌>>=◌, bytes_eq, bytes_eq_iff, on_ok,
  on_require, ok-injective, arith, subst,
}
use canton_treasury_dvp.Escrow.Runtime.{Runtime}
use canton_treasury_dvp.Escrow.State.{
  BridgeConfig, LockReceipt, OperationApproval, Account, config, receipt, approval, config_seed,
  vault_authority_seed, receipt_seed, approval_seed,
}
use canton_treasury_dvp.Escrow.Accounts.{
  Opened, LockContext, ApproveContext, MoveContext, check_lock, check_approve, check_move,
  load_or_init, require_unused, load_config, load, as_config, as_receipt, as_approval,
}

load_receipt :
    (d : Dict Account) (k : Bytes) {r : LockReceipt}
    → (load d k >>= as_receipt) ≡ ok r
    → lookup k d ≡ some (receipt r)
load_receipt d k h = ground arith

load_approval :
    (d : Dict Account) (k : Bytes) {a : OperationApproval}
    → (load d k >>= as_approval) ≡ ok a
    → lookup k d ≡ some (approval a)
load_approval d k h = ground arith

load_config_of :
    (d : Dict Account) (k : Bytes) {c : BridgeConfig}
    → (load d k >>= as_config) ≡ ok c
    → lookup k d ≡ some (config c)
load_config_of d k h = ground arith

pub require_unused-lookup :
    (d : Dict Account) (k : Bytes) → require_unused d k ≡ ok tt → lookup k d ≡ none
require_unused-lookup d k h = ground arith

module _ {T : Type 0} (rt : Runtime T) where
  load_config-lookup :
      (d : Dict Account) (k : Bytes) {c : BridgeConfig}
      → load_config rt d k ≡ ok c
      → lookup k d ≡ some (config c)
  unfolding load_config
  load_config-lookup d k h = on_ok (load d k >>= as_config) _ h λ c' loaded h1.
      on_require (bytes_eq k (rt.create_address (config_seed ∷ []) c'.bump)) _ _ h1 λ _ h2.
        subst (λ x. lookup k d ≡ some (config x)) (ok-injective h2) (load_config_of d k loaded)

  pub record ApproveLoaded (d : Dict Account) (ctx : ApproveContext) (operation : Bytes)
      (direction : ℕ) (o : Opened) : Type 0 where
    pub config_loaded : load_config rt d ctx.config.key ≡ ok o.config
    pub config_found : lookup ctx.config.key d ≡ some (config o.config)
    pub receipt_found : lookup ctx.receipt.key d ≡ some (receipt o.receipt)
    pub approval_found : load_or_init (lookup ctx.approval.key d) ≡ ok o.approval
    pub receipt_address :
        ctx.receipt.key ≡ rt.create_address (receipt_seed ∷ operation ∷ []) o.receipt.bump
    pub approval_address :
        ctx.approval.key
        ≡ rt.create_address
            (approval_seed ∷ operation ∷ (direction ∷ []) ∷ [])
            (rt.find_bump (approval_seed ∷ operation ∷ (direction ∷ []) ∷ []))

  pub check_approve-ApproveLoaded :
      (d : Dict Account) (ctx : ApproveContext) (operation : Bytes) (direction : ℕ) (o : Opened)
      → check_approve rt d ctx operation direction ≡ ok o
      → ApproveLoaded d ctx operation direction o
  unfolding check_approve
  check_approve-ApproveLoaded d ctx operation direction o h =
      on_require ctx.payer.is_writable _ _ h λ _ h1. on_require ctx.payer.is_signer _ _ h1 λ _ h2.
        on_ok (load_config rt d ctx.config.key) _ h2 λ c loaded h3.
          on_ok (load d ctx.receipt.key >>= as_receipt) _ h3 λ r loaded_receipt h4.
            on_require ctx.receipt.is_writable _ _ h4 λ _ h5.
              on_require
                (bytes_eq ctx.receipt.key
                  (rt.create_address (receipt_seed ∷ operation ∷ []) r.bump))
                _ _ h5
                λ receipt_seeds h6.
                  let seeds : List Bytes = approval_seed ∷ operation ∷ (direction ∷ []) ∷ [] in
                  on_require
                    (bytes_eq ctx.approval.key (rt.create_address seeds (rt.find_bump seeds))) _ _
                    h6
                    λ approval_seeds h7.
                      on_ok (load_or_init (lookup ctx.approval.key d)) _ h7 λ a loaded_approval h8.
                        subst (ApproveLoaded d ctx operation direction) (ok-injective h8) (record {
                          config_loaded = loaded;
                          config_found = load_config-lookup d ctx.config.key loaded;
                          receipt_found = load_receipt d ctx.receipt.key loaded_receipt;
                          approval_found = loaded_approval;
                          receipt_address = (bytes_eq_iff _ _).0 receipt_seeds;
                          approval_address = (bytes_eq_iff _ _).0 approval_seeds;
                        })

  pub record MoveLoaded (d : Dict Account) (ctx : MoveContext) (o : Opened) : Type 0 where
    pub config_found : lookup ctx.config.key d ≡ some (config o.config)
    pub receipt_found : lookup ctx.receipt.key d ≡ some (receipt o.receipt)
    pub approval_found : lookup ctx.approval.key d ≡ some (approval o.approval)
    pub receipt_address :
        ctx.receipt.key ≡ rt.create_address (receipt_seed ∷ o.receipt.operation ∷ []) o.receipt.bump
    pub approval_address :
        ctx.approval.key
        ≡ rt.create_address
            (approval_seed ∷ o.receipt.operation ∷ (o.approval.direction ∷ []) ∷ [])
            o.approval.bump
    pub authority_address :
        ctx.vault_authority.key
        ≡ rt.create_address (vault_authority_seed ∷ []) o.config.vault_authority_bump

  pub check_move-MoveLoaded :
      (d : Dict Account) (ctx : MoveContext) (o : Opened)
      → check_move rt d ctx ≡ ok o
      → MoveLoaded d ctx o
  unfolding check_move
  check_move-MoveLoaded d ctx o h = on_ok (load_config rt d ctx.config.key) _ h λ c loaded h1.
      on_ok (load d ctx.receipt.key >>= as_receipt) _ h1 λ r loaded_receipt h2.
        on_require ctx.receipt.is_writable _ _ h2 λ _ h3.
          on_require
            (bytes_eq ctx.receipt.key (rt.create_address (receipt_seed ∷ r.operation ∷ []) r.bump))
            _ _ h3
            λ receipt_seeds h4.
              on_ok (load d ctx.approval.key >>= as_approval) _ h4 λ a loaded_approval h5.
                on_require ctx.approval.is_writable _ _ h5 λ _ h6.
                  on_require
                    (bytes_eq ctx.approval.key (
                      rt.create_address (approval_seed ∷ r.operation ∷ (a.direction ∷ []) ∷ [])
                        a.bump))
                    _ _ h6
                    λ approval_seeds h7. on_require ctx.vault.is_writable _ _ h7 λ _ h8.
                      on_require ctx.destination.is_writable _ _ h8 λ _ h9.
                        on_require
                          (bytes_eq ctx.vault_authority.key
                            (rt.create_address (vault_authority_seed ∷ []) c.vault_authority_bump))
                          _ _ h9
                          λ authority h10. subst (MoveLoaded d ctx) (ok-injective h10) (record {
                            config_found = load_config-lookup d ctx.config.key loaded;
                            receipt_found = load_receipt d ctx.receipt.key loaded_receipt;
                            approval_found = load_approval d ctx.approval.key loaded_approval;
                            receipt_address = (bytes_eq_iff _ _).0 receipt_seeds;
                            approval_address = (bytes_eq_iff _ _).0 approval_seeds;
                            authority_address = (bytes_eq_iff _ _).0 authority;
                          })

  pub check_lock-lookup :
      (d : Dict Account) (ctx : LockContext) (operation : Bytes) (c : BridgeConfig)
      → check_lock rt d ctx operation ≡ ok c
      → (lookup ctx.config.key d ≡ some (config c)) × (lookup ctx.receipt.key d ≡ none)
  unfolding check_lock
  check_lock-lookup d ctx operation c h = on_require ctx.source_authority.is_signer _ _ h λ _ h1.
      on_ok (load_config rt d ctx.config.key) _ h1 λ c' loaded h2.
        on_require
          (bytes_eq ctx.receipt.key (
            rt.create_address (receipt_seed ∷ operation ∷ [])
              (rt.find_bump (receipt_seed ∷ operation ∷ []))))
          _ _ h2
          λ _ h3. on_ok (require_unused d ctx.receipt.key) _ h3 λ _ unused h4.
            on_require ctx.payer.is_writable _ _ h4 λ _ h5.
              on_require ctx.payer.is_signer _ _ h5 λ _ h6.
                on_require ctx.source.is_writable _ _ h6 λ _ h7.
                  on_require ctx.vault.is_writable _ _ h7 λ _ h8.
                    on_require
                      (bytes_eq ctx.vault_authority.key
                        (rt.create_address (vault_authority_seed ∷ []) c'.vault_authority_bump))
                      _ _ h8
                      λ _ h9. (
                        subst (λ x. lookup ctx.config.key d ≡ some (config x)) (ok-injective h9)
                            (load_config-lookup d ctx.config.key loaded),
                        require_unused-lookup d ctx.receipt.key unused,
                      )
