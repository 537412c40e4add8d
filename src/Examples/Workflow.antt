-- ===== src/Examples/Workflow.antt =====
-- The theorems on the workflow's decisions, at concrete reads.
use canton_treasury_dvp.Base.{
  ℕ, ◌≡◌, refl, true, false, some, [], codes, bytes_eq, replicate, Result, ok, err, ◌>>=◌, pos,
  arith, ◌↔◌,
}
use canton_treasury_dvp.Escrow.State.{OperationApproval}
use canton_treasury_dvp.Escrow.Canonical.{direction_release}
use canton_treasury_dvp.Bridge.Units.{
  Text, too_precise, base_units_to_canton_decimal, canton_decimal_to_base_units, scale_for,
  validate_decimals, show_u64, show_digits, pad_left, trim, trim_start, trim_end, is_whitespace,
  is_ascii_digit, split_once, digits_value, pad_right,
}
use canton_treasury_dvp.Bridge.Units.RoundTrip.{amount_round_trip, no_decimals_refused}
use canton_treasury_dvp.Bridge.Reservation.{reservation_resume, resume_approved}
use canton_treasury_dvp.Bridge.Reservation.Resumption.{Resumes, reservation_resume-Resumes}
use canton_treasury_dvp.Bridge.Recovery.{
  completed_operation_decision, record_and_exit, decode_approval,
}
use canton_treasury_dvp.Bridge.Recovery.Completion.{
  Completed, completed_operation_decision-Completed,
}
use canton_treasury_dvp.Bridge.Recovery.Agreement.{read_approval}
use canton_treasury_dvp.Bridge.Recovery.Accounts.{
  approval_account, decode_approval-approval_account,
}
use canton_treasury_dvp.Bridge.Journal.{locked, Journal}
use canton_treasury_dvp.Bridge.Evidence.{
  CantonLedgerEvidence, CantonLedgerExpectation, decimal_to_base6, base6_parts, base6_of_parts,
  trim_zeros, parse_u128, canton_amounts_match, is_whole, require_canton_ledger_evidence,
}
use canton_treasury_dvp.Bridge.Evidence.Amounts.{decimal_to_base6-printed}
use canton_treasury_dvp.Bridge.Evidence.Required.{Belongs, require_canton_ledger_evidence-Belongs}
use canton_treasury_dvp.Examples.Setting.{key}

abbrev units : ℕ
units = 1500000

amount_round_trip_example :
    (base_units_to_canton_decimal units 6 >>= (λ s. canton_decimal_to_base_units s 6)) ≡ ok units
amount_round_trip_example =
    amount_round_trip units 6 (omega arith) (omega arith) (omega arith) (omega arith)

no_decimals_refused_example :
    (base_units_to_canton_decimal units 0 >>= (λ s. canton_decimal_to_base_units s 0))
    ≡ err too_precise
no_decimals_refused_example = no_decimals_refused units (omega arith) (omega arith)

units_printed : base_units_to_canton_decimal units 6 ≡ ok (codes "1.500000")
unfolding base_units_to_canton_decimal scale_for validate_decimals show_u64 show_digits pad_left
units_printed = refl

decimal_to_base6-printed_example : decimal_to_base6 (codes "1.500000") ≡ some units
decimal_to_base6-printed_example =
    decimal_to_base6-printed units (codes "1.500000") (omega arith) (omega arith) units_printed

reservation_resume-Resumes_example :
    (reservation_resume (ok 2) (some (ok true)) ≡ ok resume_approved)
    ↔ Resumes (ok 2) (some (ok true)) resume_approved
reservation_resume-Resumes_example =
    reservation_resume-Resumes (ok 2) (some (ok true)) resume_approved

completed_operation_decision-Completed_example :
    (completed_operation_decision
        (ok 4)
        (some (ok true))
        (ok (some 4))
        (ok 0)
        (ok units)
        units
        true
        true
        true
      ≡ ok record_and_exit)
    ↔ Completed (ok 4) (some (ok true)) (ok (some 4)) (ok 0) (ok units) units true true true
completed_operation_decision-Completed_example =
    completed_operation_decision-Completed (ok 4) (some (ok true)) (ok (some 4)) (ok 0) (ok units)
      units true true true

-- The first attester has signed.
abbrev recorded : OperationApproval
recorded = record {
  operation = key 50;
  direction = direction_release;
  digest = key 2;
  signer_bitmap = 1;
  consumed = false;
  bump = 255;
  expiry = pos 1000;
}

decode_approval-approval_account_example :
    decode_approval (approval_account (replicate 8 7) recorded) ≡ ok (read_approval recorded)
decode_approval-approval_account_example =
    decode_approval-approval_account (replicate 8 7) recorded refl refl refl (omega arith)

abbrev pub journal : Journal
journal = record {
  operation_hex = [];
  reservation_hex = [];
  lock_id = [];
  completed = some locked;
  mint = [];
  source = [];
  vault = [];
  payout_destination = [];
  refund_destination = [];
  decimals = 6;
  base_units = units;
  canton_amount = [];
  mint_expiry = pos 0;
  mint_holding = [];
  seller_holding = [];
  buyer_treasury = [];
  lock_signature = [];
  release_signature = [];
  lock_proof_hex = [];
  release_expiry = pos 0;
  release_proof_hex = [];
  release_transfer_hex = [];
  release_equality = [];
  release_validity = [];
  release_range = [];
  fault_injected_chain_time = pos 0;
  fault_recovered_chain_time = pos 0;
  mint_approval_tx_a = [];
  mint_approval_sig_a = [];
  mint_approval_tx_b = [];
  mint_approval_sig_b = [];
  zama_reserve_tx = [];
  zama_reserve_gas = [];
  zama_finalize_tx = [];
  zama_finalize_gas = [];
  zama_cancel_tx = [];
  zama_cancel_gas = [];
  zama_redeem_tx = [];
  zama_redeem_gas = [];
}

abbrev expectation : CantonLedgerExpectation
expectation = record {
  lock_id = codes "lock";
  canton_amount = codes "1.500000";
  treasury_amount = codes "2";
  payout_destination = codes "payout";
  mint_holding = codes "holding";
}

abbrev evidence : CantonLedgerEvidence
evidence = record {
  lock_id = codes "lock";
  mint_holding = codes "holding";
  mint_consumed = true;
  buyer_treasury = codes "t";
  seller_payment = codes "p";
  seller_burned = true;
  redeemed_lock = codes "lock";
  payout_destination = codes "payout";
  payment_amount = codes "1.5";
  treasury_amount = codes "2.0";
  instrument_id = codes "USD-C";
  settle_seen = true;
  redeem_seen = true;
  payment_allocation = codes "a";
  payment_locked = codes "l";
  allocate_update = codes "u";
  settle_update = codes "s";
  redeem_update = codes "r";
  buyer = codes "b";
  seller = codes "c";
  payment_admin = codes "d";
  treasury_instrument = codes "UST-2028-11";
  treasury_admin = codes "e";
  trade_cid = codes "f";
}

evidence_accepted : require_canton_ledger_evidence (ok evidence) expectation ≡ ok evidence
unfolding require_canton_ledger_evidence bytes_eq is_whole canton_amounts_match decimal_to_base6
    base6_parts base6_of_parts trim_zeros parse_u128 trim trim_start trim_end is_whitespace
    is_ascii_digit split_once digits_value pad_right
evidence_accepted = refl

require_canton_ledger_evidence-Belongs_example :
    (◌≡◌ {A = Result Text CantonLedgerEvidence} (ok evidence) (ok evidence))
    × Belongs evidence expectation
require_canton_ledger_evidence-Belongs_example =
    require_canton_ledger_evidence-Belongs (ok evidence) expectation evidence evidence_accepted
