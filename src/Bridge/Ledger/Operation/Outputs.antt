-- ===== src/Bridge/Ledger/Operation/Outputs.antt =====
-- bridge/src/canton_history.rs: the settlement of the trade and the two holdings that it creates.
use canton_treasury_dvp.Base.{
  Bool, false, ◌&&◌, ◌||◌, not, Option, none, some, List, Result, ok, ◌>>=◌, ◌>>◌, require, ok_or,
  bytes_eq, codes, any,
}
use canton_treasury_dvp.Bridge.Units.{Text}
use canton_treasury_dvp.Bridge.Evidence.{CantonLedgerExpectation}
use canton_treasury_dvp.Bridge.Ledger.{
  field_text, field_numeric, missing, require_text, require_numeric, require_amount,
  require_instrument, is_text, amounts_match, receiver_cids, allocation_cid_for_leg,
}
use canton_treasury_dvp.Bridge.Ledger.Facts.{
  CreatedFact, CantonHistory, unique_created, unique_exercised, consumed_in, is_nil,
}
use canton_treasury_dvp.Bridge.Ledger.Steps.{same_text, retitle, is_some_and}
use canton_treasury_dvp.Bridge.Ledger.Operation.{PaymentAllocation, same_instrument}

-- `settle`, and the holdings that its result names as received.
pub record Settlement : Type 0 where
  pub settle_update : Text
  pub payment_receivers : List Text
  pub treasury_receivers : List Text

unfoldable pub settlement : CantonHistory → Text → PaymentAllocation → Text → Result Text Settlement
settlement history bound_trade allocated payment_locked = do
  settle ←
      retitle (codes "DvpTrade_Settle is not connected to this operation's payment allocation") (
        unique_exercised history (codes "DvpTrade_Settle") (λ fact.
          is_some_and fact.argument (λ argument.
            is_text (allocation_cid_for_leg argument (codes "stablecoin-payment"))
              allocated.payment_allocation)))
  args ← ok_or settle.argument (missing (codes "DvpTrade_Settle arguments"))
  result ← ok_or settle.result (missing (codes "DvpTrade_Settle result"))
  treasury_allocation ←
      ok_or (allocation_cid_for_leg args (codes "treasury-delivery"))
        (missing (codes "the treasury allocation on DvpTrade_Settle"))
  require (not (bytes_eq treasury_allocation allocated.payment_allocation))
      (codes "treasury and payment allocations must be distinct contracts")
  same_text settle.cid bound_trade (codes "DvpTrade_Settle is not the trade bound to this lock")
  require
      (consumed_in history allocated.payment_allocation settle.update_id
        && consumed_in history payment_locked settle.update_id)
      (codes "payment allocation was not consumed by the connected DvpTrade_Settle")
  let payment_receivers = receiver_cids result (codes "paymentResult")
  let treasury_receivers = receiver_cids result (codes "treasuryResult")
  require (not (is_nil payment_receivers || is_nil treasury_receivers))
      (missing (codes "DvpTrade_Settle receiver holdings"))
  ok (record {
    settle_update = settle.update_id;
    payment_receivers = payment_receivers;
    treasury_receivers = treasury_receivers;
  })

abbrev pub amount_is : Option Text → Text → Bool
amount_is none expected = false
amount_is (some amount) expected = amounts_match amount expected

-- A holding that an update created for an owner, of an amount.
unfoldable pub is_output : Text → Text → Text → CreatedFact → Bool
is_output update_id owner amount fact =
    bytes_eq fact.update_id update_id
    && is_some_and fact.arguments (λ args.
      is_text (field_text (some args) (codes "owner")) owner
      && amount_is (field_numeric (some args) (codes "amount")) amount)

pub record Outputs : Type 0 where
  pub seller_payment : CreatedFact
  pub buyer_treasury : CreatedFact

unfoldable pub settlement_outputs :
    CantonHistory → CantonLedgerExpectation → Text → Text → Settlement → Result Text Outputs
unfolding is_output
settlement_outputs history x buyer seller settled = do
  seller_payment ←
      unique_created history (codes "StablecoinHolding")
        (is_output settled.settle_update seller x.canton_amount)
  buyer_treasury ←
      unique_created history (codes "TreasuryHolding")
        (is_output settled.settle_update buyer x.treasury_amount)
  require (any (λ cid. bytes_eq cid seller_payment.cid) settled.payment_receivers)
      (codes "seller payment was not an output of the connected DvpTrade_Settle")
  require (any (λ cid. bytes_eq cid buyer_treasury.cid) settled.treasury_receivers)
      (codes "buyer Treasury was not an output of the connected DvpTrade_Settle")
  ok (record { seller_payment = seller_payment; buyer_treasury = buyer_treasury })

pub record Delivered : Type 0 where
  pub payment_amount : Text
  pub treasury_amount : Text
  pub treasury_instrument : Text
  pub treasury_admin : Text

-- The amounts, instruments and owners of the outputs.
unfoldable pub delivered :
    CantonLedgerExpectation → Text → Text → Text × Text → Outputs → Result Text Delivered
delivered x buyer seller payment out = do
  payment_args ← ok_or out.seller_payment.arguments (missing (codes "seller payment arguments"))
  treasury_args ← ok_or out.buyer_treasury.arguments (missing (codes "buyer Treasury arguments"))
  payment_amount ← require_numeric payment_args (codes "amount") (codes "seller payment amount")
  require_amount payment_amount x.canton_amount (codes "seller payment amount")
  treasury_amount ← require_numeric treasury_args (codes "amount") (codes "buyer Treasury amount")
  require_amount treasury_amount x.treasury_amount (codes "buyer Treasury amount")
  out_instrument ← require_instrument payment_args (codes "seller payment instrument")
  same_instrument out_instrument payment
      (codes "seller payment instrument does not match the minted holding")
  treasury ← require_instrument treasury_args (codes "buyer Treasury instrument")
  treasury_owner ← require_text treasury_args (codes "owner") (codes "buyer Treasury owner")
  same_text treasury_owner buyer (codes "buyer Treasury owner does not match the buyer")
  payment_owner ← require_text payment_args (codes "owner") (codes "seller payment owner")
  same_text payment_owner seller (codes "seller payment owner does not match the seller")
  ok (record {
    payment_amount = payment_amount;
    treasury_amount = treasury_amount;
    treasury_instrument = treasury.0;
    treasury_admin = treasury.1;
  })
