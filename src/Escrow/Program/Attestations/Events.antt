-- ===== src/Escrow/Program/Attestations/Events.antt =====
-- The log and the bitmaps of approvals, event by event.
use Prim.Native.Nat.{bit_or}
use canton_treasury_dvp.Base.{
  ℕ, ◌^◌, ◌≡◌, ◌<◌, refl, sym, Option, none, some, List, [], ◌∷◌, Bytes, lookup, insert,
  lookup-insert, lookup-nil, ok, bytes_eq_iff, ℤ, inl, inr, ◌⊎◌, arith, Result-cases, ◌∙◌, ap,
  subst, Bool-cases, ◌==◌, ==_iff, Dict,
}
use canton_treasury_dvp.Escrow.Canonical.{operation_digest, direction_cancel, direction_release}
use canton_treasury_dvp.Escrow.Runtime.{Runtime}
use canton_treasury_dvp.Escrow.State.{
  Account, LockReceipt, OperationApproval, BridgeConfig, config, receipt, approval, attester_index,
}
use canton_treasury_dvp.Escrow.State.Quorum.{set_bit-lt, has_bit-set_bit, has_bit-zero}
use canton_treasury_dvp.Escrow.Ed25519.{read_preceding_ed25519}
use canton_treasury_dvp.Escrow.Accounts.{
  Ledger, ApproveContext, InitializeContext, LockContext, MoveContext, load_config, load_or_init,
}
use canton_treasury_dvp.Escrow.Requests.{
  LockArgs, ApproveArgs, InitializeArgs, MovementArgs, open_approval, add_signer, fresh_approval,
}
use canton_treasury_dvp.Escrow.Handlers.{
  approve_operation, initialize, lock_confidential, move_vault_tokens, cancel_confidential,
  release_confidential, request_operation,
}
use canton_treasury_dvp.Escrow.Handlers.Loaded.{
  check_lock-lookup, check_approve-ApproveLoaded, check_move-MoveLoaded,
}
use canton_treasury_dvp.Escrow.Handlers.Locked.{lock_confidential-Locked, initialize-Initialized}
use canton_treasury_dvp.Escrow.Handlers.Approved.{Approved, approve_operation-Approved}
use canton_treasury_dvp.Escrow.Handlers.Moved.{move_vault_tokens-Moved}
use canton_treasury_dvp.Escrow.Program.{
  Event, transaction, elsewhere, initializes, locks, approves, cancels, releases, execute, step,
  run, Call,
}
use canton_treasury_dvp.Escrow.Program.Attestations.{
  Attestation, Log, Logged, newest, config_key, Vouched, Backed, Inv, record_call, record_event,
  attestations,
}
use canton_treasury_dvp.Escrow.Program.Attestations.Preserved.{
  Extends-insert, NotConfig-none, NotConfig-receipt, NotConfig-loaded, Backed-later, Inv-log,
  Inv-config, Inv-receipt, Inv-approval,
}

-- The approval that a signature is added to is fresh, or the recorded one with the same digest.
pub open_approval-cases :
    (a : OperationApproval) (args : ApproveArgs) (digest : Bytes) (now : ℤ) (bump : ℕ)
    {b : OperationApproval}
    → open_approval a args digest now bump ≡ ok b
    → (b ≡ fresh_approval args digest bump) ⊎ ((b ≡ a) × (a.digest ≡ digest))
unfolding open_approval
open_approval-cases a args digest now bump h = ground (arith, bytes_eq_iff a.digest digest)

pub add_signer-eq :
    (a : OperationApproval) (index : ℕ) {b : OperationApproval}
    → add_signer a index ≡ ok b
    → b ≡ record a { signer_bitmap = bit_or a.signer_bitmap (2 ^ index) }
unfolding add_signer
add_signer-eq a index h = ground arith

pub attester_index-lt : (c : BridgeConfig) (p : Bytes) {i : ℕ} → attester_index c p ≡ some i → i < 3
unfolding attester_index
attester_index-lt c p h = ground arith

fresh_bitmap :
    (args : ApproveArgs) (digest : Bytes) (bump : ℕ)
    → (fresh_approval args digest bump).signer_bitmap ≡ 0
unfolding fresh_approval
fresh_bitmap args digest bump = refl

fresh_digest :
    (args : ApproveArgs) (digest : Bytes) (bump : ℕ)
    → (fresh_approval args digest bump).digest ≡ digest
unfolding fresh_approval
fresh_digest args digest bump = refl

module _ {T : Type 0} (rt : Runtime T) where
  Backed-empty :
      (d : Dict Account) (l : Log) (k : Bytes) (a : OperationApproval)
      → a.signer_bitmap ≡ 0
      → Backed rt d l k a
  Backed-empty d l k a zeroes = record {
    small = omega arith;
    bits = λ j lt bit. absurd (ground (arith, bit, has_bit-zero j lt));
  }

  Backed-loaded :
      (d : Dict Account) (l : Log) (k : Bytes) (o : Option Account) (a : OperationApproval)
      → lookup k d ≡ o
      → load_or_init o ≡ ok a
      → Inv rt d l
      → Backed rt d l k a
  Backed-loaded d l k none a found h v = Backed-empty d l k a (ground arith)
  Backed-loaded d l k (some (config c)) a found h v = absurd (ground arith)
  Backed-loaded d l k (some (receipt r)) a found h v = absurd (ground arith)
  Backed-loaded d l k (some (approval b)) a found h v = v.approvals k a (ground arith)

  -- The bit of a new signature is backed by the new log entry.
  Backed-signed :
      (d : Dict Account) (l : Log) (k : Bytes) (a : OperationApproval) (c : BridgeConfig)
      (p : Bytes) (index : ℕ)
      → lookup (config_key rt) d ≡ some (config c)
      → attester_index c p ≡ some index
      → Logged (record { config = c; attester = p; approval = k; digest = a.digest }) l
      → Backed rt d l k a
      → Backed rt d l k (record a { signer_bitmap = bit_or a.signer_bitmap (2 ^ index) })
  Backed-signed d l k a c p index force known logged b =
      let lt3 = attester_index-lt c p known in
      record {
        small = set_bit-lt a.signer_bitmap index b.small lt3;
        bits = λ j lt bit. elim (Bool-cases (j == index)) [
          | inl new ↦ subst (Vouched rt d l k a.digest) (sym ((==_iff j index).0 new)) (record {
            config = c;
            attester = p;
            in_force = force;
            known = known;
            logged = logged;
          })
          | inr old ↦
              b.bits j lt
                (ground (arith, bit, old, has_bit-set_bit a.signer_bitmap index j b.small lt3 lt))
        ];
      }

  initialize-Inv :
      (ctx : InitializeContext) (args : InitializeArgs) (before after : Ledger T) (l : Log)
      → initialize rt ctx args before ≡ ok after
      → Inv rt before.accounts l
      → Inv rt after.accounts l
  initialize-Inv ctx args before after l h v =
      let done = initialize-Initialized rt ctx args before after h in
      subst (λ (x : Ledger T). Inv rt x.accounts l) (sym done.written)
        (Inv-config rt ctx.config.key _ before.accounts l done.address
          (NotConfig-none _ done.unused) v)

  lock_confidential-Inv :
      (ctx : LockContext) (args : LockArgs) (now : ℤ) (before after : Ledger T) (l : Log)
      → lock_confidential rt ctx args now before ≡ ok after
      → Inv rt before.accounts l
      → Inv rt after.accounts l
  lock_confidential-Inv ctx args now before after l h v =
      let done = lock_confidential-Locked rt ctx args now before after h in
      let found = check_lock-lookup rt before.accounts ctx args.operation done.opened done.loaded in
      subst (λ (x : Ledger T). Inv rt x.accounts l) (sym done.written)
        (Inv-receipt rt ctx.receipt.key _ before.accounts l (NotConfig-none _ found.1) v)

  -- Writing a receipt and an approval that were there before keeps the invariant, if the approval
  -- is backed.
  pair-Inv :
      (akey rkey : Bytes) (b a : OperationApproval) (r r' : LockReceipt) (d : Dict Account)
      (l : Log)
      → lookup rkey d ≡ some (receipt r)
      → load_or_init (lookup akey d) ≡ ok a
      → Backed rt d l akey b
      → Inv rt d l
      → Inv rt (insert akey (approval b) (insert rkey (receipt r') d)) l
  pair-Inv akey rkey b a r r' d l hr ha backed v =
      let other = NotConfig-receipt (lookup rkey d) r hr in
      Inv-approval rt akey b (insert rkey (receipt r') d) l
        (λ c e.
          NotConfig-loaded (lookup akey d) ha c
            (ground (arith, e, lookup-insert rkey akey (receipt r') d)))
        (Backed-later rt d _ l l akey b (Extends-insert rt rkey (receipt r') d other)
          (λ y logged. logged) backed)
        (Inv-receipt rt rkey r' d l other v)

  -- What an accepted request appends to the log, and how it backs the approval that it writes.
  pub approve_operation-Backed :
      (ctx : ApproveContext) (args : ApproveArgs) (now : ℤ) (before after : Ledger T) (l : Log)
      → (done : Approved rt ctx args now before after) → Inv rt before.accounts l
      → Backed rt before.accounts
          (record_call rt before (approves ctx args) l)
          ctx.approval.key
          done.final
        × (done.final.digest
            ≡ operation_digest rt.hash (request_operation rt ctx done.opened.config args))
  unfolding record_call
  approve_operation-Backed ctx args now before after l done v =
      let found =
        check_approve-ApproveLoaded rt before.accounts ctx args.operation args.direction done.opened
          done.loaded in
      let c = done.opened.config in
      let d = before.accounts in
      let signed = (bytes_eq_iff _ _).0 done.digest in
      let entry : Attestation = record {
        config = c;
        attester = done.signed.attester;
        approval = ctx.approval.key;
        digest = done.signed.digest;
      } in
      let in_force : lookup (config_key rt) d ≡ some (config c) =
        subst (λ k. lookup k d ≡ some (config c)) (v.configs ctx.config.key c found.config_found)
          found.config_found in
      let based : Backed rt d (entry ∷ l) ctx.approval.key done.base
          × (done.base.digest ≡ done.signed.digest) =
        elim (open_approval-cases done.opened.approval args _ now _ done.based) [
          | inl fresh ↦ (
            Backed-empty d (entry ∷ l) ctx.approval.key done.base
                (rw fresh (fresh_bitmap args _ _)),
            ap (λ (a : OperationApproval). a.digest) fresh ∙ fresh_digest args _ _ ∙ sym signed,
          )
          | inr (old, agrees) ↦ (
            Backed-loaded d (entry ∷ l) ctx.approval.key (lookup ctx.approval.key d) done.base refl
                (found.approval_found ∙ ap ok (sym old)) (Inv-log rt d entry l v),
            ap (λ (a : OperationApproval). a.digest) old ∙ agrees ∙ sym signed,
          )
        ] in
      let grown = add_signer-eq done.base done.index done.added in
      rw (found.config_loaded, done.preceded)
        (
          subst (Backed rt d (entry ∷ l) ctx.approval.key) (sym grown) (
              Backed-signed d (entry ∷ l) ctx.approval.key done.base c done.signed.attester
                done.index in_force done.known
                (subst
                  (λ x.
                    Logged
                      (record {
                        config = c;
                        attester = done.signed.attester;
                        approval = ctx.approval.key;
                        digest = x;
                      })
                      (entry ∷ l))
                  (sym based.1) (newest l))
                based.0),
          ap (λ (a : OperationApproval). a.digest) grown ∙ based.1 ∙ signed,
        )

  record_call-Inv :
      (ctx : ApproveContext) (args : ApproveArgs) (before : Ledger T) (l : Log)
      → Inv rt before.accounts l
      → Inv rt before.accounts (record_call rt before (approves ctx args) l)
  unfolding record_call
  record_call-Inv ctx args before l v =
      elim (Result-cases (load_config rt before.accounts ctx.config.key)) [
        | inl (c, loaded) ↦
            elim (Result-cases (read_preceding_ed25519 rt ctx.instructions_sysvar)) [
              | inl (s, read) ↦ rw (loaded, read) (Inv-log rt before.accounts _ l v)
              | inr (e, unread) ↦ rw (loaded, unread) v
            ]
        | inr (e, failed) ↦ rw failed v
      ]

  approve_operation-Inv :
      (ctx : ApproveContext) (args : ApproveArgs) (now : ℤ) (before after : Ledger T) (l : Log)
      → approve_operation rt ctx args now before ≡ ok after
      → Inv rt before.accounts l
      → Inv rt after.accounts (record_call rt before (approves ctx args) l)
  approve_operation-Inv ctx args now before after l h v =
      let done = approve_operation-Approved rt ctx args now before after h in
      let found =
        check_approve-ApproveLoaded rt before.accounts ctx args.operation args.direction done.opened
          done.loaded in
      let grown = record_call rt before (approves ctx args) l in
      subst (λ (x : Ledger T). Inv rt x.accounts grown) (sym done.written)
        (pair-Inv ctx.approval.key ctx.receipt.key done.final done.opened.approval
          done.opened.receipt done.receipt_after before.accounts grown found.receipt_found
          found.approval_found (approve_operation-Backed ctx args now before after l done v).0
          (record_call-Inv ctx args before l v))

  move_vault_tokens-Inv :
      (ctx : MoveContext) (args : MovementArgs) (direction : ℕ) (now : ℤ) (before after : Ledger T)
      (l : Log)
      → move_vault_tokens rt ctx args direction now before ≡ ok after
      → Inv rt before.accounts l
      → Inv rt after.accounts l
  move_vault_tokens-Inv ctx args direction now before after l h v =
      let done = move_vault_tokens-Moved rt ctx args direction now before after h in
      let found = check_move-MoveLoaded rt before.accounts ctx done.opened done.loaded in
      let b = v.approvals ctx.approval.key done.opened.approval found.approval_found in
      subst (λ (x : Ledger T). Inv rt x.accounts l) (sym done.written)
        (pair-Inv ctx.approval.key ctx.receipt.key _ done.opened.approval done.opened.receipt _
          before.accounts l found.receipt_found (ap load_or_init found.approval_found)
          (record { small = b.small; bits = b.bits }) v)

  execute-Inv :
      (now : ℤ) (call : Call) (before after : Ledger T) (l : Log)
      → execute rt now call before ≡ ok after
      → Inv rt before.accounts l
      → Inv rt after.accounts (record_call rt before call l)
  unfolding execute record_call cancel_confidential release_confidential
  execute-Inv now (initializes ctx args) before after l h v =
      initialize-Inv ctx args before after l h v
  execute-Inv now (locks ctx args) before after l h v =
      lock_confidential-Inv ctx args now before after l h v
  execute-Inv now (approves ctx args) before after l h v =
      approve_operation-Inv ctx args now before after l h v
  execute-Inv now (cancels ctx args) before after l h v =
      move_vault_tokens-Inv ctx args direction_cancel now before after l h v
  execute-Inv now (releases ctx args) before after l h v =
      move_vault_tokens-Inv ctx args direction_release now before after l h v

  -- Every transaction keeps the record of signatures: only the program's configuration address
  -- holds
  -- a configuration, each approval's bitmap is below 8, and each of its bits stands for a logged
  -- signature of its digest, for its address, by that attester of the configuration in force.
  pub step-Inv :
      (before : Ledger T) (e : Event T) (l : Log)
      → Inv rt before.accounts l
      → Inv rt (step rt before e).accounts (record_event rt before e l)
  unfolding step record_event
  step-Inv before (elsewhere tokens) l v = v
  step-Inv before (transaction now call) l v = elim (Result-cases (execute rt now call before)) [
    | inl (after, done) ↦ rw (done, step, record_event) (execute-Inv now call before after l done v)
    | inr (e, failed) ↦ rw (failed, step, record_event) v
  ]

  pub run-Inv :
      (before : Ledger T) (es : List (Event T)) (l : Log)
      → Inv rt before.accounts l
      → Inv rt (run rt before es).accounts (attestations rt before es l)
  unfolding run attestations
  run-Inv before [] l v = v
  run-Inv before (e ∷ es) l v =
      run-Inv (step rt before e) es (record_event rt before e l) (step-Inv before e l v)

  -- The program starts with no accounts.
  pub start-Inv : Inv rt [] []
  start-Inv = record {
    configs = λ k c found. absurd (ground (arith, found, lookup-nil {V = Account} k));
    approvals = λ k a found. absurd (ground (arith, found, lookup-nil {V = Account} k));
  }
