-- ===== src/Examples/Finish.antt =====
-- The record of a completed operation, on that history.
use canton_treasury_dvp.Base.{
  ℕ, suc, replicate, pos, false, ◌≡◌, refl, true, none, some, [], ok, err, codes, bytes_eq, filter,
  sort_by_key, dedup_by, max_by_key,
}
use canton_treasury_dvp.Bridge.Evidence.{
  canton_amounts_match, decimal_to_base6, base6_parts, base6_of_parts, trim_zeros, parse_u128,
  is_whole, require_canton_ledger_evidence,
}
use canton_treasury_dvp.Bridge.Units.{
  trim, trim_start, trim_end, is_whitespace, is_ascii_digit, split_once, digits_value, pad_right,
}
use canton_treasury_dvp.Bridge.Ledger.{
  find_label, looks_numeric, field_text, field_numeric, require_text, require_numeric,
  require_instrument, amounts_match, require_amount, receiver_cids, field, field_inside,
  field_items, field_boxed, as_text, as_text_boxed, as_numeric, as_numeric_inside, as_numeric_boxed,
  value_contains_cid, fields_contain_cid, items_contain_cid, boxed_contains_cid, collect_cids,
  collect_fields, collect_items, collect_boxed, allocation_cid_for_leg, allocation_inside,
  allocation_items, allocation_boxed,
}
use canton_treasury_dvp.Bridge.Ledger.Steps.{starts_with, contains, retitle}
use canton_treasury_dvp.Bridge.Ledger.Facts.{
  is_empty_history, ends_with, template_ends, consumed_in, created_by_cid, unique_created,
  unique_exercised,
}
use canton_treasury_dvp.Bridge.Ledger.Binding.{
  allocation_locked_holding, distinct_texts, binding_for_lock, mint_reference, bound_by_reference,
  authorized_binding,
}
use canton_treasury_dvp.Bridge.Ledger.Operation.{
  recorded_fields, minted_elsewhere, minted_lock, payment_instrument, payment_allocation,
  locked_payment,
}
use canton_treasury_dvp.Bridge.Ledger.Operation.Outputs.{
  settlement, is_output, settlement_outputs, delivered,
}
use canton_treasury_dvp.Bridge.Ledger.Operation.Redemption.{
  redemption_request, is_burn, gateway_redeem, redeemed_lock,
}
use canton_treasury_dvp.Bridge.Ledger.Connect.{bound_trade, connect_canton_history}
use canton_treasury_dvp.Bridge.Ledger.Completion.{
  history_output, not_connected, from_facts, completion_from_acs_and_history,
}
use canton_treasury_dvp.Bridge.Ledger.Json.Read.{
  json_string, created_fact, exercised_fact, archived_fact, push_fact, lines, strip_prefix,
  fact_text, parse_lines, parse_canton_history_facts,
}
use canton_treasury_dvp.Bridge.Ledger.Json.{
  get, get_member, parse_leaf, parse_value, record_in, record_fields, parse_members, list_in,
  list_items, parse_elements, optional_in, variant_in, variant_value, value_in,
}
use canton_treasury_dvp.Bridge.Ledger.Json.Printed.{
  printed, printed_fields, printed_items, printed_boxed, precedes, insert_member,
}
use canton_treasury_dvp.Examples.Ledger.{from_letter, log_text}
use canton_treasury_dvp.Bridge.Journal.{Journal, locked}
use canton_treasury_dvp.Bridge.Recovery.{decode_receipt_status, completed_operation_decision}
use canton_treasury_dvp.Bridge.Workflow.{
  Services, Context, Run, ◌>>=◌, ◌>>◌, return, ask, attempt, ensure, lift, get_journal,
  read_receipt_status, stop_here,
}
use canton_treasury_dvp.Bridge.Workflow.Cancel.{outcome}
use canton_treasury_dvp.Bridge.Workflow.Complete.{
  Canton, verify_completion, decide, complete_with, complete_recorded, record_completed_operation,
}
use canton_treasury_dvp.Bridge.Workflow.Complete.Finished.{
  IsFinished, record_completed_operation-IsFinished,
}
use canton_treasury_dvp.Examples.Steps.{clock_bytes, released_account, options}

abbrev journal : Journal
journal = record {
  operation_hex = [];
  reservation_hex = [];
  lock_id = codes "lock";
  completed = some locked;
  mint = [];
  source = [];
  vault = [];
  payout_destination = codes "dest";
  refund_destination = [];
  decimals = 6;
  base_units = 5000000;
  canton_amount = codes "5.0";
  mint_expiry = pos 0;
  mint_holding = codes "holding";
  seller_holding = [];
  buyer_treasury = [];
  lock_signature = [];
  release_signature = [];
  lock_proof_hex = [];
  release_expiry = pos 0;
  release_proof_hex = [];
  release_transfer_hex = [];
  release_equality = [];
  release_validity = [];
  release_range = [];
  fault_injected_chain_time = pos 0;
  fault_recovered_chain_time = pos 0;
  mint_approval_tx_a = [];
  mint_approval_sig_a = [];
  mint_approval_tx_b = [];
  mint_approval_sig_b = [];
  zama_reserve_tx = [];
  zama_reserve_gas = [];
  zama_finalize_tx = [];
  zama_finalize_gas = [];
  zama_cancel_tx = [];
  zama_cancel_gas = [];
  zama_redeem_tx = [];
  zama_redeem_gas = [];
}

abbrev services : Services ℕ
services = record {
  status = λ hex w. (ok 4, w);
  approved = λ hex w. (ok true, w);
  submit = λ s w. (ok (codes "id"), w);
  zama_call =
      λ s w. (ok (record { approved = true; tx_hash = some (codes "tx"); gas_used = none }), w);
  get_account = λ key w. (ok (some released_account), w);
  clock_account = λ w. (ok (clock_bytes w), suc w);
  pending_credit_counter = λ account w. (ok 0, w);
  decrypt_available = λ account w. (ok 5, w);
  encrypt = λ account n w. (ok [], w);
  has_pending_encrypted_credit = λ account w. (ok false, w);
  generate_transfer_proofs = λ from to amount w. (err (codes "no prover"), w);
  wait_confirmed = λ id w. (ok (codes "signature"), w);
  confirm_on_chain = λ sig w. (ok tt, w);
  measure_legacy = λ s w. (ok tt, w);
  save_journal = λ j w. (ok tt, w);
  save_secrets = λ w. (ok tt, w);
  instruction_data = λ m. m.transfer_data;
  approval_pda = λ operation direction. codes "approval";
  sha256 = λ bytes. bytes;
}

abbrev context : Context
context = record {
  source = codes "source";
  vault = codes "vault";
  destination = codes "destination";
  destination_text = journal.payout_destination;
  amount = 5;
  commitment = [];
  operation = replicate 32 0;
  reservation = replicate 32 0;
  previous = replicate 32 0;
  chain_id = replicate 32 0;
  program_id = replicate 32 0;
  config = replicate 32 0;
  receipt = codes "receipt";
  reservation_hex = codes "0x00";
  include_canton_zama = false;
  release_deadline_secs = pos 3600;
}

abbrev canton : Canton ℕ
canton = record {
  run_script = λ x w. (ok (codes "skipped"), w);
  run_console = λ x w. (ok log_text, w);
  from_str = from_letter;
  message = λ e. [];
}

abbrev run : Run ℕ
run = record { world = 0; journal = journal; sent = [] }

recorded_complete :
    record_completed_operation services options context canton run
    ≡ (ok tt, (record_completed_operation services options context canton run).1)
unfolding find_label looks_numeric field_text field_numeric require_text require_numeric
    require_instrument amounts_match require_amount receiver_cids field field_inside field_items
    field_boxed as_text as_text_boxed as_numeric as_numeric_inside as_numeric_boxed
    value_contains_cid fields_contain_cid items_contain_cid boxed_contains_cid collect_cids
    collect_fields collect_items collect_boxed allocation_cid_for_leg allocation_inside
    allocation_items allocation_boxed starts_with contains retitle is_empty_history ends_with
    template_ends consumed_in created_by_cid unique_created unique_exercised
    allocation_locked_holding distinct_texts binding_for_lock mint_reference bound_by_reference
    authorized_binding recorded_fields minted_elsewhere minted_lock payment_instrument
    payment_allocation locked_payment settlement is_output settlement_outputs delivered
    redemption_request is_burn gateway_redeem redeemed_lock bound_trade connect_canton_history
    history_output not_connected from_facts completion_from_acs_and_history json_string created_fact
    exercised_fact archived_fact push_fact lines strip_prefix fact_text parse_lines
    parse_canton_history_facts get get_member parse_leaf parse_value record_in record_fields
    parse_members list_in list_items parse_elements optional_in variant_in variant_value value_in
    canton_amounts_match decimal_to_base6 base6_parts base6_of_parts trim_zeros parse_u128 is_whole
    require_canton_ledger_evidence trim trim_start trim_end is_whitespace is_ascii_digit split_once
    digits_value pad_right bytes_eq filter sort_by_key dedup_by max_by_key printed printed_fields
    printed_items printed_boxed precedes insert_member decode_receipt_status
    completed_operation_decision ◌>>=◌ ◌>>◌ return ask attempt ensure lift get_journal
    read_receipt_status stop_here outcome verify_completion decide complete_with complete_recorded
    record_completed_operation
recorded_complete = refl

record_completed_operation-IsFinished_example :
    IsFinished services options context canton journal run
record_completed_operation-IsFinished_example =
    record_completed_operation-IsFinished services options context canton run
      (record_completed_operation services options context canton run).1 recorded_complete
