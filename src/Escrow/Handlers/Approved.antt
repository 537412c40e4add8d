-- ===== src/Escrow/Handlers/Approved.antt =====
-- What `approve_operation` has checked and written when it succeeds.
use canton_treasury_dvp.Base.{
  ℕ, ◌≡◌, true, [], ◌∷◌, some, insert, ok, bytes_eq, ℤ, on_ok, on_require, on_some, ok-injective,
  sym,
}
use canton_treasury_dvp.Escrow.Canonical.{operation_digest}
use canton_treasury_dvp.Escrow.Runtime.{Runtime}
use canton_treasury_dvp.Escrow.State.{
  LockReceipt, OperationApproval, receipt, approval, attester_index, approval_seed,
}
use canton_treasury_dvp.Escrow.Ed25519.{read_preceding_ed25519, Ed25519Approval}
use canton_treasury_dvp.Escrow.Accounts.{Ledger, Opened, ApproveContext, check_approve}
use canton_treasury_dvp.Escrow.Requests.{
  ApproveArgs, check_request, open_approval, add_signer, authorize_mint,
}
use canton_treasury_dvp.Escrow.Handlers.{approve_operation, request_operation}

module _ {T : Type 0} (rt : Runtime T) where
  pub record Approved (ctx : ApproveContext) (args : ApproveArgs) (now : ℤ)
      (before after : Ledger T) : Type 0 where
    pub opened : Opened
    pub signed : Ed25519Approval
    pub index : ℕ
    pub base : OperationApproval
    pub final : OperationApproval
    pub receipt_after : LockReceipt
    pub loaded : check_approve rt before.accounts ctx args.operation args.direction ≡ ok opened
    pub requested : check_request args opened.receipt now ≡ ok tt
    pub preceded : read_preceding_ed25519 rt ctx.instructions_sysvar ≡ ok signed
    pub digest :
        bytes_eq signed.digest
          (operation_digest rt.hash (request_operation rt ctx opened.config args))
        ≡ true
    pub known : attester_index opened.config signed.attester ≡ some index
    pub based :
        open_approval opened.approval args
          (operation_digest rt.hash (request_operation rt ctx opened.config args))
          now
          (rt.find_bump (approval_seed ∷ args.operation ∷ (args.direction ∷ []) ∷ []))
        ≡ ok base
    pub added : add_signer base index ≡ ok final
    pub authorized : authorize_mint args.direction final opened.receipt ≡ ok receipt_after
    pub written : after ≡ record before {
      accounts =
          insert ctx.approval.key
            (approval final)
            (insert ctx.receipt.key (receipt receipt_after) before.accounts);
    }

  pub approve_operation-Approved :
      (ctx : ApproveContext) (args : ApproveArgs) (now : ℤ) (before after : Ledger T)
      → approve_operation rt ctx args now before ≡ ok after
      → Approved ctx args now before after
  unfolding approve_operation
  approve_operation-Approved ctx args now before after h =
      on_ok (check_approve rt before.accounts ctx args.operation args.direction) _ h
        λ opened loaded h1. on_ok (check_request args opened.receipt now) _ h1 λ _ requested h2.
          on_ok (read_preceding_ed25519 rt ctx.instructions_sysvar) _ h2 λ signed preceded h3.
            on_require
              (bytes_eq signed.digest
                (operation_digest rt.hash (request_operation rt ctx opened.config args)))
              _ _ h3
              λ digest h4.
                on_some (attester_index opened.config signed.attester) _ _ h4 λ index known h5.
                  on_ok
                    (open_approval opened.approval args
                      (operation_digest rt.hash (request_operation rt ctx opened.config args)) now
                      (rt.find_bump (approval_seed ∷ args.operation ∷ (args.direction ∷ []) ∷ [])))
                    _ h5
                    λ base based h6. on_ok (add_signer base index) _ h6 λ final added h7.
                      on_ok (authorize_mint args.direction final opened.receipt) _ h7
                        λ receipt_after authorized h8. record {
                          opened = opened;
                          signed = signed;
                          index = index;
                          base = base;
                          final = final;
                          receipt_after = receipt_after;
                          loaded = loaded;
                          requested = requested;
                          preceded = preceded;
                          digest = digest;
                          known = known;
                          based = based;
                          added = added;
                          authorized = authorized;
                          written = sym (ok-injective h8);
                        }
