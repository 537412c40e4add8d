-- ===== src/Bridge/Workflow/Complete.antt =====
-- bridge/src/workflow.rs and bridge/src/canton.rs: the record of an operation that the chains show as
-- completed.
pub mod Finished
use canton_treasury_dvp.Base.{
  ℕ, Bool, true, false, ◌&&◌, ◌||◌, not, Option, none, some, List, ◌∷◌, ◌++◌, Bytes, Result, ok,
  err, codes, bytes_eq, map_err, ◌==◌,
}
use canton_treasury_dvp.Bridge.Units.{Text, is_empty}
use canton_treasury_dvp.Bridge.Evidence.{
  CantonLedgerExpectation, CantonLedgerEvidence, require_canton_ledger_evidence,
}
use canton_treasury_dvp.Bridge.Journal.{Step, Journal, zama_redeemed}
use canton_treasury_dvp.Bridge.Recovery.{
  CompletionDecision, completed_operation_decision, continue, record_and_exit,
}
use canton_treasury_dvp.Bridge.Ledger.Json.{Json}
use canton_treasury_dvp.Bridge.Ledger.Completion.{completion_from_acs_and_history}
use canton_treasury_dvp.Bridge.Workflow.{
  Services, Options, Context, Run, Act, Ask, Failure, recovery, evidence, ◌>>=◌, ◌>>◌, return, ask,
  attempt, ensure, lift, get_journal, stop_here, read_receipt_status,
}
use canton_treasury_dvp.Bridge.Workflow.Cancel.{outcome}

-- The two Canton scripts, the parser of JSON, and the text of an error.
pub record Canton (W : Type 0) : Type 0 where
  pub run_script : CantonLedgerExpectation → Ask W Text
  pub run_console : CantonLedgerExpectation → Ask W Text
  pub from_str : Text → Result Text Json
  pub message : Failure → Text

abbrev pub expectation : Journal → CantonLedgerExpectation
expectation j = record {
  lock_id = j.lock_id;
  canton_amount = j.canton_amount;
  treasury_amount = codes "100.000000";
  payout_destination = j.payout_destination;
  mint_holding = j.mint_holding;
}

abbrev pub or_skipped : Result Text Text → Text
or_skipped (ok stdout) = stdout
or_skipped (err e) = codes "CANTON_ACS_SKIP " ++ e

abbrev pub is_recorded : CompletionDecision → Bool
is_recorded continue = false
is_recorded record_and_exit = true

module _ {W : Type 0} (services : Services W) (options : Options) (context : Context)
    (canton : Canton W) where
  unfoldable pub verify_completion :
      CantonLedgerExpectation → Act W (Result Text CantonLedgerEvidence)
  unfolding ◌>>=◌ return attempt completion_from_acs_and_history
  verify_completion expected = do
    acs ← attempt (canton.run_script expected)
    history ← attempt (canton.run_console expected)
    return (completion_from_acs_and_history canton.from_str (or_skipped acs) history expected)

  -- The decision from all that is read again.
  unfoldable pub decide : Journal → CantonLedgerEvidence → Act W CompletionDecision
  unfolding ◌>>=◌ attempt lift outcome read_receipt_status completed_operation_decision
  decide j e = do
    status ← attempt (services.status context.reservation_hex)
    approved ← attempt (services.approved context.reservation_hex)
    receipt ← outcome (read_receipt_status services context.receipt)
    pending ← attempt (services.pending_credit_counter context.destination)
    available ← attempt (services.decrypt_available context.destination)
    lift recovery (
        completed_operation_decision status (some approved) (map_err canton.message receipt) pending
          available context.amount (e.settle_seen && e.mint_consumed)
          (e.redeem_seen && e.seller_burned)
          (bytes_eq context.destination_text j.payout_destination
            && bytes_eq e.payout_destination j.payout_destination))

  -- The operation once the evidence is read.
  unfoldable pub complete_with : Journal → Result Text CantonLedgerEvidence → Act W (Unit {0})
  unfolding ◌>>=◌ ◌>>◌ return ask ensure lift stop_here read_receipt_status
      require_canton_ledger_evidence decide
  complete_with j read = do
    e ← lift evidence (require_canton_ledger_evidence read (expectation j))
    decision ← decide j e
    ensure (is_recorded decision)
        (codes "completed reservation did not present matching recovery evidence")
    status ← read_receipt_status services context.receipt
    pending ← ask (services.pending_credit_counter context.destination)
    available ← ask (services.decrypt_available context.destination)
    stop ← stop_here services options zama_redeemed
    return tt

  unfoldable pub complete_recorded : Journal → Act W (Unit {0})
  unfolding ◌>>=◌ verify_completion complete_with
  complete_recorded j = verify_completion (expectation j) >>= complete_with j

  unfoldable pub record_completed_operation : Act W (Unit {0})
  unfolding ◌>>=◌ get_journal complete_recorded
  record_completed_operation = get_journal >>= complete_recorded
