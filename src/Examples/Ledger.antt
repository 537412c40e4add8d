-- ===== src/Examples/Ledger.antt =====
-- A history of the Canton ledger in which one operation runs from the minted lock to its redemption.
use canton_treasury_dvp.Base.{◌-◌, true, some, List, [], ◌∷◌, Result, ok, err, codes, get_or}
use canton_treasury_dvp.Bridge.Units.{Text}
use canton_treasury_dvp.Bridge.Evidence.{CantonLedgerExpectation, CantonLedgerEvidence}
use canton_treasury_dvp.Bridge.Ledger.{LedgerValue, Fields, Values}
use canton_treasury_dvp.Bridge.Ledger.Facts.{CantonHistory}
use canton_treasury_dvp.Bridge.Ledger.Json.{Json}
use canton_treasury_dvp.Bridge.Ledger.Json.Log.{Fact, printed_fact, with_facts}

abbrev pub and_text : Text → Text → Fields → Fields
and_text label t rest = Fields.named label (LedgerValue.text t) rest

abbrev pub and_amount : Text → Fields → Fields
and_amount n rest = Fields.named (codes "amount") (LedgerValue.numeric n) rest

abbrev pub and_instrument : Text → Text → Fields → Fields
and_instrument admin id rest =
    Fields.named (codes "instrumentId")
      (LedgerValue.record_of (and_text (codes "admin") admin (and_text (codes "id") id Fields.end)))
      rest

abbrev pub cash_fields : Text → Fields
cash_fields owner =
    and_text (codes "owner") owner
      (and_amount (codes "5.000000") (and_instrument (codes "cash") (codes "USD-C") Fields.end))

abbrev pub made : Text → Text → Text → Fields → Fact
made template cid update_id fs = Fact.created (record {
  template = template;
  cid = cid;
  update_id = update_id;
  arguments = some (LedgerValue.record_of fs);
})

abbrev pub ran : Text → Text → Text → Fields → Fields → Fact
ran choice cid update_id argument result = Fact.exercised (record {
  template = codes "T";
  choice = choice;
  cid = cid;
  consuming = true;
  update_id = update_id;
  argument = some (LedgerValue.record_of argument);
  result = some (LedgerValue.record_of result);
})

abbrev pub gone : Text → Text → Fact
gone cid update_id =
    Fact.archived (record { template = codes "T"; cid = cid; update_id = update_id })

abbrev pub leg_of : Text → Text → LedgerValue
leg_of leg cid =
    LedgerValue.record_of
      (and_text (codes "transferLegId") leg (and_text (codes "allocationCid") cid Fields.end))

abbrev pub received : Text → LedgerValue
received cid = LedgerValue.record_of (
    Fields.named (codes "receiverHoldingCids")
      (LedgerValue.list_of (Values.cons (LedgerValue.contract_id cid) Values.nil)) Fields.end)

abbrev pub facts : List Fact
facts =
    made (codes "Bridge.Gateway:MintedLock") (codes "minted") (codes "u1") (
      and_text (codes "lockId") (codes "lock") (
        and_text (codes "holdingCid") (codes "holding") (
          and_amount (codes "5.000000") (
            and_text (codes "beneficiary") (codes "buyer")
              (and_text (codes "cashRegistry") (codes "cash") Fields.end)))))
    ∷ made (codes "Stablecoin.Holding:StablecoinHolding") (codes "holding") (codes "u1")
        (cash_fields (codes "buyer"))
    ∷ made (codes "Bridge.Binding:BridgeMintRef") (codes "ref") (codes "u1") (
        and_text (codes "lockId") (codes "lock") (
          and_text (codes "mintHoldingCid") (codes "holding") (
            and_text (codes "cashRegistry") (codes "cash")
              (and_text (codes "buyer") (codes "buyer") Fields.end))))
    ∷ made (codes "Bridge.Binding:BridgeTradeBinding") (codes "binding") (codes "u2") (
        and_text (codes "lockId") (codes "lock") (
          and_text (codes "mintHoldingCid") (codes "holding")
            (and_text (codes "tradeCid") (codes "trade") Fields.end)))
    ∷ ran (codes "Gateway_Mint") (codes "gateway") (codes "u1") Fields.end Fields.end
    ∷ ran (codes "BridgeMintRef_Bind") (codes "ref") (codes "u2") Fields.end Fields.end
    ∷ made (codes "Stablecoin.Allocation:StablecoinAllocation") (codes "allocation") (codes "u3")
        (and_text (codes "lockedHoldingCid") (codes "locked") Fields.end)
    ∷ made (codes "Stablecoin.Holding:StablecoinHolding") (codes "locked") (codes "u3")
        (cash_fields (codes "buyer"))
    ∷ ran (codes "AllocationFactory_Allocate") (codes "rules") (codes "u3")
        (and_text (codes "expectedAdmin") (codes "cash") (
          and_text (codes "input") (codes "holding") (
            Fields.named (codes "transferLeg")
              (LedgerValue.record_of (
                and_text (codes "sender") (codes "buyer") (
                  and_text (codes "receiver") (codes "seller") (
                    and_amount (codes "5.000000")
                      (and_instrument (codes "cash") (codes "USD-C") Fields.end)))))
              Fields.end)))
        (and_text (codes "allocationCid") (codes "allocation") Fields.end)
    ∷ gone (codes "holding") (codes "u3")
    ∷ ran (codes "DvpTrade_Settle") (codes "trade") (codes "u4")
        (Fields.named (codes "allocations")
          (LedgerValue.list_of (
            Values.cons (leg_of (codes "treasury-delivery") (codes "other"))
              (Values.cons (leg_of (codes "stablecoin-payment") (codes "allocation")) Values.nil)))
          Fields.end)
        (Fields.named (codes "paymentResult") (received (codes "payment"))
          (Fields.named (codes "treasuryResult") (received (codes "bond")) Fields.end))
    ∷ gone (codes "allocation") (codes "u4")
    ∷ gone (codes "locked") (codes "u4")
    ∷ made (codes "Stablecoin.Holding:StablecoinHolding") (codes "payment") (codes "u4")
        (cash_fields (codes "seller"))
    ∷ made (codes "Treasury.Holding:TreasuryHolding") (codes "bond") (codes "u4") (
        and_text (codes "owner") (codes "buyer") (
          and_amount (codes "100.000000")
            (and_instrument (codes "state") (codes "UST-2028-11") Fields.end)))
    ∷ made (codes "Bridge.Gateway:RedemptionRequest") (codes "request") (codes "u5") (
        and_text (codes "lockId") (codes "lock") (
          and_text (codes "holdingCid") (codes "payment") (
            and_text (codes "payoutDestination") (codes "dest") (
              and_text (codes "holder") (codes "seller") (
                and_amount (codes "5.000000")
                  (and_instrument (codes "cash") (codes "USD-C") Fields.end))))))
    ∷ ran (codes "Gateway_Redeem") (codes "gateway") (codes "u6")
        (and_text (codes "requestCid") (codes "request") (
          and_text (codes "mintedLockCid") (codes "minted")
            (and_text (codes "bindingCid") (codes "binding") Fields.end)))
        Fields.end
    ∷ ran (codes "Burn") (codes "payment") (codes "u6") Fields.end Fields.end
    ∷ made (codes "Bridge.Gateway:RedeemedLock") (codes "redeemed") (codes "u6") (
        and_text (codes "lockId") (codes "lock")
          (and_text (codes "holder") (codes "seller") (and_amount (codes "5.000000") Fields.end)))
    ∷ []

abbrev pub history : CantonHistory
history = with_facts facts (record { created = []; exercised = []; archived = [] })

abbrev pub expected : CantonLedgerExpectation
expected = record {
  lock_id = codes "lock";
  canton_amount = codes "5.0";
  treasury_amount = codes "100.0";
  payout_destination = codes "dest";
  mint_holding = codes "holding";
}

abbrev pub evidence : CantonLedgerEvidence
evidence = record {
  lock_id = codes "lock";
  mint_holding = codes "holding";
  mint_consumed = true;
  buyer_treasury = codes "bond";
  seller_payment = codes "payment";
  seller_burned = true;
  redeemed_lock = codes "redeemed";
  payout_destination = codes "dest";
  payment_amount = codes "5.000000";
  treasury_amount = codes "100.000000";
  instrument_id = codes "USD-C";
  settle_seen = true;
  redeem_seen = true;
  payment_allocation = codes "allocation";
  payment_locked = codes "locked";
  allocate_update = codes "u3";
  settle_update = codes "u4";
  redeem_update = codes "u6";
  buyer = codes "buyer";
  seller = codes "seller";
  payment_admin = codes "cash";
  treasury_instrument = codes "UST-2028-11";
  treasury_admin = codes "state";
  trade_cid = codes "trade";
}

-- A parser of JSON for the log below, in which a letter stands for the text of a fact.
abbrev pub from_letter : Text → Result Text Json
from_letter [] = err (codes "empty")
from_letter (c ∷ s) = ok (printed_fact (get_or facts (c - b'a') (gone (codes "x") (codes "x"))))

abbrev pub log_text : Text
log_text =
    codes
      "started\nCANTON_FACT a\nCANTON_FACT b\nCANTON_FACT c\nCANTON_FACT d\nCANTON_FACT e\nCANTON_FACT f\nCANTON_FACT g\nCANTON_FACT h\nCANTON_FACT i\nCANTON_FACT j\nCANTON_FACT k\nCANTON_FACT l\nCANTON_FACT m\nCANTON_FACT n\nCANTON_FACT o\nCANTON_FACT p\nCANTON_FACT q\nCANTON_FACT r\nCANTON_FACT s\n"
