-- ===== src/Bridge/Ledger/Completion.antt =====
-- bridge/src/canton.rs: the evidence of an operation's completion, from the output of the two Canton
-- scripts. An error is its message.
pub mod Verified
use canton_treasury_dvp.Base.{
  Bool, true, false, ◌||◌, List, [], ◌∷◌, ◌++◌, Result, ok, err, ◌>>=◌, ◌>>◌, require, map_err,
  codes, not, if◌then◌else◌,
}
use canton_treasury_dvp.Bridge.Units.{Text}
use canton_treasury_dvp.Bridge.Evidence.{CantonLedgerExpectation, CantonLedgerEvidence}
use canton_treasury_dvp.Bridge.Ledger.Facts.{CantonHistory, is_empty_history, another_operation}
use canton_treasury_dvp.Bridge.Ledger.Steps.{contains}
use canton_treasury_dvp.Bridge.Ledger.Json.{Json}
use canton_treasury_dvp.Bridge.Ledger.Json.Read.{parse_canton_history_facts, cannot_be_read}
use canton_treasury_dvp.Bridge.Ledger.Connect.{connect_canton_history}

-- `CantonLedgerEvidence::default()`
abbrev pub no_evidence : CantonLedgerEvidence
no_evidence = record {
  lock_id = [];
  mint_holding = [];
  mint_consumed = false;
  buyer_treasury = [];
  seller_payment = [];
  seller_burned = false;
  redeemed_lock = [];
  payout_destination = [];
  payment_amount = [];
  treasury_amount = [];
  instrument_id = [];
  settle_seen = false;
  redeem_seen = false;
  payment_allocation = [];
  payment_locked = [];
  allocate_update = [];
  settle_update = [];
  redeem_update = [];
  buyer = [];
  seller = [];
  payment_admin = [];
  treasury_instrument = [];
  treasury_admin = [];
  trade_cid = [];
}

abbrev pub other_lock : Text → Bool
other_lock t =
    contains t (codes "CANTON_HISTORY_OTHER_LOCK") || contains t (codes "another operation")

abbrev pub failed : Text → Bool
failed t = contains t (codes "CANTON_VERIFY_FAIL") || contains t (codes "missing")

abbrev pub unreadable_mark : Text
unreadable_mark = codes "CANTON_VERIFY_UNREADABLE"

-- The history script's output, or the text of a failure that may stand for it.
unfoldable pub history_output : Result Text Text → Result Text Text
unfolding contains
history_output (ok stdout) = ok stdout
history_output (err text) =
    if other_lock text
    then err another_operation
    else if contains text unreadable_mark
    then err (cannot_be_read text)
    else if failed text
    then ok text
    else err (cannot_be_read text)

-- What becomes of an operation that the facts do not connect.
unfoldable pub not_connected : Text → Result Text CantonLedgerEvidence
unfolding contains
not_connected text =
    if contains text (codes "another operation") || contains text (codes "not connected")
    then err another_operation
    else if contains text (codes "cannot be read")
    then err (cannot_be_read text)
    else ok no_evidence

abbrev pub or_not_connected : Result Text CantonLedgerEvidence → Result Text CantonLedgerEvidence
or_not_connected (ok evidence) = ok evidence
or_not_connected (err text) = not_connected text

-- The evidence from facts that were read.
unfoldable pub from_facts :
    Text → CantonHistory → CantonLedgerExpectation → Result Text CantonLedgerEvidence
unfolding is_empty_history connect_canton_history not_connected contains
from_facts combined facts expected = elim (is_empty_history facts) [
  | true ↦
      if failed combined
      then ok no_evidence
      else err (codes "Canton ledger evidence cannot be read")
  | false ↦ or_not_connected (connect_canton_history facts expected)
]

-- `serde_json::from_str`
module _ (from_str : Text → Result Text Json) where
  unfoldable pub completion_from_acs_and_history :
      Text → Result Text Text → CantonLedgerExpectation → Result Text CantonLedgerEvidence
  unfolding history_output from_facts contains parse_canton_history_facts
  completion_from_acs_and_history acs history expected = do
    history_text ← history_output history
    let combined = acs ++ (b'\n' ∷ history_text)
    require (not (contains combined unreadable_mark))
        (codes "Canton ledger evidence cannot be read")
    require (not (other_lock combined)) another_operation
    facts ← map_err cannot_be_read (parse_canton_history_facts from_str combined)
    from_facts combined facts expected
