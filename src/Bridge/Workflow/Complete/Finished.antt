-- ===== src/Bridge/Workflow/Complete/Finished.antt =====
-- bridge/src/workflow.rs: what stands behind an operation that is recorded as completed.
use canton_treasury_dvp.Base.{
  ℕ, ◌≡◌, refl, sym, ap, ◌∙◌, subst, Bool, true, ◌&&◌, Option, some, Result, ok, bytes_eq, map_err,
}
use canton_treasury_dvp.Bridge.Units.{Text}
use canton_treasury_dvp.Bridge.Evidence.{
  CantonLedgerExpectation, CantonLedgerEvidence, require_canton_ledger_evidence,
}
use canton_treasury_dvp.Bridge.Journal.{Journal}
use canton_treasury_dvp.Bridge.Recovery.{
  CompletionDecision, completed_operation_decision, record_and_exit, continue,
}
use canton_treasury_dvp.Bridge.Recovery.Completion.{
  Completed, completed_operation_decision-Completed,
}
use canton_treasury_dvp.Bridge.Ledger.Completion.{completion_from_acs_and_history}
use canton_treasury_dvp.Bridge.Ledger.Completion.Verified.{
  Verified, completion_from_acs_and_history-Verified,
}
use canton_treasury_dvp.Bridge.Workflow.{
  Services, Options, Context, Run, Failure, recovery, evidence, attempt, lift, get_journal,
  read_receipt_status, ensure,
}
use canton_treasury_dvp.Bridge.Workflow.Cancel.{outcome}
use canton_treasury_dvp.Bridge.Workflow.Complete.{
  Canton, expectation, or_skipped, is_recorded, verify_completion, decide, complete_with,
  complete_recorded, record_completed_operation,
}
use canton_treasury_dvp.Bridge.Workflow.Traced.{
  on_bind, on_then, ensure-ok, return-ok, lift-ok, get_journal-ok,
}

module _ {W : Type 0} (services : Services W) (options : Options) (context : Context)
    (canton : Canton W) where
  -- Reads of the Zama contract, the receipt and the destination, one after the other, that complete an
  -- operation together with the ledger's evidence.
  pub record Decided (j : Journal) (e : CantonLedgerEvidence) (start : Run W) : Type 0 where
    pub status : Result Text ℕ
    pub after_status : Run W
    pub approved : Result Text Bool
    pub after_approved : Run W
    pub receipt : Result Failure (Option ℕ)
    pub after_receipt : Run W
    pub pending : Result Text ℕ
    pub after_pending : Run W
    pub available : Result Text ℕ
    pub after_available : Run W
    pub read_status :
        attempt (services.status context.reservation_hex) start ≡ (ok status, after_status)
    pub read_approved :
        attempt (services.approved context.reservation_hex) after_status
        ≡ (ok approved, after_approved)
    pub read_receipt :
        outcome (read_receipt_status services context.receipt) after_approved
        ≡ (ok receipt, after_receipt)
    pub read_pending :
        attempt (services.pending_credit_counter context.destination) after_receipt
        ≡ (ok pending, after_pending)
    pub read_available :
        attempt (services.decrypt_available context.destination) after_pending
        ≡ (ok available, after_available)
    pub completed :
        Completed status
          (some approved)
          (map_err canton.message receipt)
          pending
          available
          context.amount
          (e.settle_seen && e.mint_consumed)
          (e.redeem_seen && e.seller_burned)
          (bytes_eq context.destination_text j.payout_destination
            && bytes_eq e.payout_destination j.payout_destination)

  -- What the two scripts answer for a lock, one after the other, and the evidence that it verifies;
  -- then the reads that complete the operation.
  pub record IsFinished (j : Journal) (start : Run W) : Type 0 where
    pub acs : Result Text Text
    pub after_acs : Run W
    pub history : Result Text Text
    pub after_history : Run W
    pub seen : CantonLedgerEvidence
    pub read_acs : attempt (canton.run_script (expectation j)) start ≡ (ok acs, after_acs)
    pub read_history :
        attempt (canton.run_console (expectation j)) after_acs ≡ (ok history, after_history)
    pub verified : Verified canton.from_str (or_skipped acs) history (expectation j) seen
    pub decided : Decided j seen after_history

  recorded : (d : CompletionDecision) → is_recorded d ≡ true → d ≡ record_and_exit
  recorded continue h = cc
  recorded record_and_exit h = refl

  decide-Decided :
      (j : Journal) (e : CantonLedgerEvidence) (r t : Run W) (d : CompletionDecision)
      → decide services options context canton j e r ≡ (ok d, t)
      → d ≡ record_and_exit
      → Decided j e r
  unfolding decide
  decide-Decided j e r t d ran is_exit =
      on_bind (attempt (services.status context.reservation_hex)) _ r ran λ status t1 e1 h1.
        on_bind (attempt (services.approved context.reservation_hex)) _ t1 h1 λ approved t2 e2 h2.
          on_bind (outcome (read_receipt_status services context.receipt)) _ t2 h2
            λ receipt t3 e3 h3.
              on_bind (attempt (services.pending_credit_counter context.destination)) _ t3 h3
                λ pending t4 e4 h4.
                  on_bind (attempt (services.decrypt_available context.destination)) _ t4 h4
                    λ available t5 e5 h5.
                      let l =
                        lift-ok recovery
                          (completed_operation_decision status (some approved)
                            (map_err canton.message receipt) pending available context.amount
                            (e.settle_seen && e.mint_consumed) (e.redeem_seen && e.seller_burned)
                            (bytes_eq context.destination_text j.payout_destination
                              && bytes_eq e.payout_destination j.payout_destination))
                          t5 h5 in
                      record {
                        status = status;
                        approved = approved;
                        receipt = receipt;
                        pending = pending;
                        available = available;
                        after_status = t1;
                        after_approved = t2;
                        after_receipt = t3;
                        after_pending = t4;
                        after_available = t5;
                        read_status = e1;
                        read_approved = e2;
                        read_receipt = e3;
                        read_pending = e4;
                        read_available = e5;
                        completed =
                            (completed_operation_decision-Completed status (some approved)
                                (map_err canton.message receipt) pending available context.amount
                                (e.settle_seen && e.mint_consumed)
                                (e.redeem_seen && e.seller_burned)
                                (bytes_eq context.destination_text j.payout_destination
                                  && bytes_eq e.payout_destination j.payout_destination)).0
                              (l.0 ∙ ap ok is_exit);
                      }

  -- Evidence that the expectation's requirement accepts.
  Accepted :
      CantonLedgerExpectation → Result Text CantonLedgerEvidence → CantonLedgerEvidence → Type 0
  Accepted x read e = require_canton_ledger_evidence read x ≡ ok e

  verify_completion-IsFinished :
      (j : Journal) (r t : Run W) (read : Result Text CantonLedgerEvidence)
      (e : CantonLedgerEvidence)
      → verify_completion services options context canton (expectation j) r ≡ (ok read, t)
      → Accepted (expectation j) read e
      → Decided j e t
      → IsFinished j r
  unfolding verify_completion Accepted
  verify_completion-IsFinished j r t read e ran accepted d =
      on_bind (attempt (canton.run_script (expectation j))) _ r ran λ acs t1 e1 h1.
        on_bind (attempt (canton.run_console (expectation j))) _ t1 h1 λ history t2 e2 h2.
          let l =
            return-ok
              (completion_from_acs_and_history canton.from_str (or_skipped acs) history
                (expectation j))
              t2 h2 in
          record {
            acs = acs;
            after_acs = t1;
            history = history;
            after_history = t2;
            seen = e;
            read_acs = e1;
            read_history = e2;
            verified =
                completion_from_acs_and_history-Verified canton.from_str (or_skipped acs) history
                  (expectation j) e (subst (λ m. Accepted (expectation j) m e) (sym l.0) accepted);
            decided = subst (Decided j e) (sym l.1) d;
          }

  complete_with-Decided :
      (j : Journal) (read : Result Text CantonLedgerEvidence) (r after : Run W)
      → complete_with services options context canton j read r ≡ (ok tt, after)
      → (e : CantonLedgerEvidence) × Accepted (expectation j) read e × Decided j e r
  unfolding complete_with Accepted
  complete_with-Decided j read r after ran =
      on_bind (lift evidence (require_canton_ledger_evidence read (expectation j))) _ r ran
        λ e t2 e2 h2. on_bind (decide services options context canton j e) _ t2 h2 λ d t3 e3 h3.
          on_then (ensure (is_recorded d) _) _ t3 h3 λ t4 e4 h4.
            let accepted =
              lift-ok evidence (require_canton_ledger_evidence read (expectation j)) r e2 in
            (
              e,
              accepted.0,
              subst (Decided j e) accepted.1 (
                  decide-Decided j e t2 t3 d e3 (recorded d (ensure-ok (is_recorded d) _ t3 e4).0)),
            )

  complete_recorded-IsFinished :
      (j : Journal) (r after : Run W)
      → complete_recorded services options context canton j r ≡ (ok tt, after)
      → IsFinished j r
  unfolding complete_recorded
  complete_recorded-IsFinished j r after ran =
      on_bind (verify_completion services options context canton (expectation j))
        (complete_with services options context canton j) r ran
        λ read t1 e1 h1.
          let d = complete_with-Decided j read t1 after h1 in
          verify_completion-IsFinished j r t1 read d.0 e1 d.1 d.2

  -- An operation is recorded as completed only on evidence of the Canton ledger that is verified, for
  -- the lock, the holding, the amounts and the destination that the journal's expectation names, and
  -- on reads of the Zama contract, the receipt and the destination that show it as completed.
  pub record_completed_operation-IsFinished :
      (r after : Run W)
      → record_completed_operation services options context canton r ≡ (ok tt, after)
      → IsFinished r.journal r
  unfolding record_completed_operation
  record_completed_operation-IsFinished r after ran =
      on_bind get_journal (complete_recorded services options context canton) r ran λ j t e h.
        let read = get_journal-ok r e in
        subst (λ i. IsFinished i r) (sym read.0)
          (subst (IsFinished j) (sym read.1) (complete_recorded-IsFinished j t after h))
