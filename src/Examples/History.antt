-- ===== src/Examples/History.antt =====
-- The theorems on the Canton ledger's history, on that history.
use canton_treasury_dvp.Base.{
  ◌≡◌, refl, true, none, some, List, [], ◌∷◌, Result, ok, err, codes, ◌↔◌, ◌≤◌, Among, first,
  if◌then◌else◌, bytes_eq, filter, sort_by_key, dedup_by, max_by_key,
}
use canton_treasury_dvp.Bridge.Evidence.{
  CantonLedgerExpectation, canton_amounts_match, decimal_to_base6, base6_parts, base6_of_parts,
  trim_zeros, parse_u128, is_whole, require_canton_ledger_evidence,
}
use canton_treasury_dvp.Bridge.Units.{
  Text, trim, trim_start, trim_end, is_whitespace, is_ascii_digit, split_once, digits_value,
  pad_right,
}
use canton_treasury_dvp.Bridge.Ledger.{
  find_label, looks_numeric, field_text, field_numeric, require_text, require_numeric,
  require_instrument, amounts_match, require_amount, receiver_cids, field, field_inside,
  field_items, field_boxed, as_text, as_text_boxed, as_numeric, as_numeric_inside, as_numeric_boxed,
  value_contains_cid, fields_contain_cid, items_contain_cid, boxed_contains_cid, collect_cids,
  collect_fields, collect_items, collect_boxed, allocation_cid_for_leg, allocation_inside,
  allocation_items, allocation_boxed,
}
use canton_treasury_dvp.Bridge.Ledger.Steps.{starts_with, contains, retitle}
use canton_treasury_dvp.Bridge.Ledger.Facts.{
  is_empty_history, ends_with, template_ends, consumed_in, created_by_cid, unique_created,
  unique_exercised,
}
use canton_treasury_dvp.Bridge.Ledger.Binding.{
  allocation_locked_holding, distinct_texts, binding_for_lock, mint_reference, bound_by_reference,
  authorized_binding,
}
use canton_treasury_dvp.Bridge.Ledger.Operation.{
  recorded_fields, minted_elsewhere, minted_lock, payment_instrument, payment_allocation,
  locked_payment,
}
use canton_treasury_dvp.Bridge.Ledger.Operation.Outputs.{
  settlement, is_output, settlement_outputs, delivered,
}
use canton_treasury_dvp.Bridge.Ledger.Operation.Redemption.{
  redemption_request, is_burn, gateway_redeem, redeemed_lock,
}
use canton_treasury_dvp.Bridge.Ledger.Connect.{bound_trade, connect_canton_history}
use canton_treasury_dvp.Bridge.Ledger.Completion.{
  history_output, not_connected, from_facts, completion_from_acs_and_history,
}
use canton_treasury_dvp.Bridge.Ledger.Json.Read.{
  json_string, created_fact, exercised_fact, archived_fact, push_fact, lines, strip_prefix,
  fact_text, parse_lines, parse_canton_history_facts,
}
use canton_treasury_dvp.Bridge.Ledger.Json.{
  get, get_member, parse_leaf, parse_value, record_in, record_fields, parse_members, list_in,
  list_items, parse_elements, optional_in, variant_in, variant_value, value_in,
}
use canton_treasury_dvp.Bridge.Ledger.Json.Read.{no_facts}
use canton_treasury_dvp.Bridge.Ledger.Json.{Json}
use canton_treasury_dvp.Bridge.Ledger.Json.Printed.{
  printed, printed_fields, printed_items, printed_boxed, precedes, insert_member, in_order,
  parse_value-printed,
}
use canton_treasury_dvp.Bridge.Ledger.Json.Log.{
  Fact, Log, printed_fact, with_facts, in_order_facts, parse_lines-Log,
}
use canton_treasury_dvp.Bridge.Ledger.Facts.{CreatedFact, CantonHistory, created_key}
use canton_treasury_dvp.Bridge.Ledger.Facts.Search.{unique_created-only}
use canton_treasury_dvp.Bridge.Ledger.Completion.Verified.{
  Verified, completion_from_acs_and_history-Verified,
}
use canton_treasury_dvp.Bridge.Ledger.Connect.Connected.{Connected}
use canton_treasury_dvp.Bridge.Ledger.Connect.Separate.{connect_canton_history_separate}
use canton_treasury_dvp.Bridge.Ledger.{LedgerValue, Fields, Values, Boxed}
use canton_treasury_dvp.Examples.Ledger.{gone, history, expected, evidence, from_letter, log_text}

connected_history : connect_canton_history history expected ≡ ok evidence
unfolding find_label looks_numeric field_text field_numeric require_text require_numeric
    require_instrument amounts_match require_amount receiver_cids field field_inside field_items
    field_boxed as_text as_text_boxed as_numeric as_numeric_inside as_numeric_boxed
    value_contains_cid fields_contain_cid items_contain_cid boxed_contains_cid collect_cids
    collect_fields collect_items collect_boxed allocation_cid_for_leg allocation_inside
    allocation_items allocation_boxed starts_with contains retitle is_empty_history ends_with
    template_ends consumed_in created_by_cid unique_created unique_exercised
    allocation_locked_holding distinct_texts binding_for_lock mint_reference bound_by_reference
    authorized_binding recorded_fields minted_elsewhere minted_lock payment_instrument
    payment_allocation locked_payment settlement is_output settlement_outputs delivered
    redemption_request is_burn gateway_redeem redeemed_lock bound_trade connect_canton_history
    canton_amounts_match decimal_to_base6 base6_parts base6_of_parts trim_zeros parse_u128 trim
    trim_start trim_end is_whitespace is_ascii_digit split_once digits_value pad_right bytes_eq
    filter sort_by_key dedup_by max_by_key
connected_history = refl

verified_log :
    require_canton_ledger_evidence
      (completion_from_acs_and_history from_letter (codes "skipped") (ok log_text) expected)
      expected
    ≡ ok evidence
unfolding find_label looks_numeric field_text field_numeric require_text require_numeric
    require_instrument amounts_match require_amount receiver_cids field field_inside field_items
    field_boxed as_text as_text_boxed as_numeric as_numeric_inside as_numeric_boxed
    value_contains_cid fields_contain_cid items_contain_cid boxed_contains_cid collect_cids
    collect_fields collect_items collect_boxed allocation_cid_for_leg allocation_inside
    allocation_items allocation_boxed starts_with contains retitle is_empty_history ends_with
    template_ends consumed_in created_by_cid unique_created unique_exercised
    allocation_locked_holding distinct_texts binding_for_lock mint_reference bound_by_reference
    authorized_binding recorded_fields minted_elsewhere minted_lock payment_instrument
    payment_allocation locked_payment settlement is_output settlement_outputs delivered
    redemption_request is_burn gateway_redeem redeemed_lock bound_trade connect_canton_history
    history_output not_connected from_facts completion_from_acs_and_history json_string created_fact
    exercised_fact archived_fact push_fact lines strip_prefix fact_text parse_lines
    parse_canton_history_facts get get_member parse_leaf parse_value record_in record_fields
    parse_members list_in list_items parse_elements optional_in variant_in variant_value value_in
    canton_amounts_match decimal_to_base6 base6_parts base6_of_parts trim_zeros parse_u128 is_whole
    require_canton_ledger_evidence trim trim_start trim_end is_whitespace is_ascii_digit split_once
    digits_value pad_right bytes_eq filter sort_by_key dedup_by max_by_key printed printed_fields
    printed_items printed_boxed precedes insert_member
verified_log = refl

completion_from_acs_and_history-Verified_example :
    Verified from_letter (codes "skipped") (ok log_text) expected evidence
completion_from_acs_and_history-Verified_example =
    completion_from_acs_and_history-Verified from_letter (codes "skipped") (ok log_text) expected
      evidence verified_log

abbrev written_short : CantonLedgerExpectation
written_short = record {
  lock_id = codes "lock";
  canton_amount = codes "5";
  treasury_amount = codes "100";
  payout_destination = codes "dest";
  mint_holding = codes "holding";
}

connected_short : connect_canton_history history written_short ≡ ok evidence
unfolding find_label looks_numeric field_text field_numeric require_text require_numeric
    require_instrument amounts_match require_amount receiver_cids field field_inside field_items
    field_boxed as_text as_text_boxed as_numeric as_numeric_inside as_numeric_boxed
    value_contains_cid fields_contain_cid items_contain_cid boxed_contains_cid collect_cids
    collect_fields collect_items collect_boxed allocation_cid_for_leg allocation_inside
    allocation_items allocation_boxed starts_with contains retitle is_empty_history ends_with
    template_ends consumed_in created_by_cid unique_created unique_exercised
    allocation_locked_holding distinct_texts binding_for_lock mint_reference bound_by_reference
    authorized_binding recorded_fields minted_elsewhere minted_lock payment_instrument
    payment_allocation locked_payment settlement is_output settlement_outputs delivered
    redemption_request is_burn gateway_redeem redeemed_lock bound_trade connect_canton_history
    canton_amounts_match decimal_to_base6 base6_parts base6_of_parts trim_zeros parse_u128 trim
    trim_start trim_end is_whitespace is_ascii_digit split_once digits_value pad_right bytes_eq
    filter sort_by_key dedup_by max_by_key
connected_short = refl

connect_canton_history_separate_example :
    (evidence.mint_holding ≡ evidence.mint_holding) ↔ (evidence.lock_id ≡ evidence.lock_id)
connect_canton_history_separate_example =
    connect_canton_history_separate history expected written_short evidence evidence
      connected_history connected_short

abbrev bare : CreatedFact
bare = record {
  template = codes "Gateway:MintedLock";
  cid = codes "c";
  update_id = codes "u";
  arguments = none;
}

abbrev full : CreatedFact
full = record {
  template = codes "Gateway:MintedLock";
  cid = codes "c";
  update_id = codes "u";
  arguments = some (LedgerValue.text (codes "lock"));
}

abbrev seen_twice : CantonHistory
seen_twice = record { created = bare ∷ full ∷ []; exercised = []; archived = [] }

full_is_unique : unique_created seen_twice (codes "MintedLock") (λ fact. true) ≡ ok full
unfolding unique_created template_ends ends_with bytes_eq filter sort_by_key dedup_by
full_is_unique = refl

bare_is_minted : template_ends bare (codes "MintedLock") ≡ true
unfolding template_ends ends_with bytes_eq
bare_is_minted = refl

unique_created-only_example :
    Among full seen_twice.created
    × (template_ends full (codes "MintedLock") ≡ true)
    × (true ≡ true)
    × (bare.cid ≡ full.cid)
    × (bare.update_id ≡ full.update_id)
    × (created_key bare ≤ created_key full)
unique_created-only_example =
    unique_created-only seen_twice (codes "MintedLock") (λ fact. true) full bare full_is_unique
      (first (full ∷ [])) bare_is_minted refl

abbrev nested : LedgerValue
nested = LedgerValue.variant (codes "Completed") (
    Boxed.present (
      LedgerValue.record_of (
        Fields.named (codes "text")
          (LedgerValue.list_of (Values.cons (LedgerValue.bool true) Values.nil))
          (Fields.named (codes "nothing") (LedgerValue.optional Boxed.absent) Fields.end))))

parse_value-printed_example : parse_value (printed nested) ≡ some (in_order nested)
parse_value-printed_example = parse_value-printed nested

abbrev two_facts : List Fact
two_facts = gone (codes "a") (codes "u") ∷ gone (codes "b") (codes "u") ∷ []

from_two : Text → Result Text Json
from_two t =
    if bytes_eq t (codes "1")
    then ok (printed_fact (gone (codes "a") (codes "u")))
    else if bytes_eq t (codes "2")
    then ok (printed_fact (gone (codes "b") (codes "u")))
    else err (codes "no JSON")

two_lines :
    Log from_two (codes "CANTON_FACT 1" ∷ codes "ready" ∷ codes " CANTON_FACT2 " ∷ []) two_facts
unfolding from_two fact_text strip_prefix starts_with trim trim_start trim_end is_whitespace
    bytes_eq
two_lines =
    Log.fact {json = codes "1"} refl refl (refl, refl, refl)
      (Log.noise refl (Log.fact {json = codes "2"} refl refl (refl, refl, refl) Log.end))

parse_lines-Log_example :
    parse_lines from_two
      (codes "CANTON_FACT 1" ∷ codes "ready" ∷ codes " CANTON_FACT2 " ∷ [])
      no_facts
    ≡ ok (with_facts (in_order_facts two_facts) no_facts)
parse_lines-Log_example = parse_lines-Log from_two no_facts two_lines
