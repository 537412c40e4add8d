-- ===== src/Bridge/Ledger/Connect.antt =====
-- bridge/src/canton_history.rs: `connect_canton_history`, the stages in the source's order.
pub mod Stages
pub mod Authorized
pub mod Payment
pub mod Delivery
pub mod Redeemed
pub mod Connected
pub mod Separate
use canton_treasury_dvp.Base.{true, Result, ok, err, ◌>>=◌, ◌>>◌, ok_or, codes}
use canton_treasury_dvp.Bridge.Units.{Text}
use canton_treasury_dvp.Bridge.Evidence.{CantonLedgerExpectation, CantonLedgerEvidence}
use canton_treasury_dvp.Bridge.Ledger.{missing, require_text}
use canton_treasury_dvp.Bridge.Ledger.Facts.{CreatedFact, ExercisedFact, CantonHistory}
use canton_treasury_dvp.Bridge.Ledger.Binding.{authorized_binding, allocation_locked_holding}
use canton_treasury_dvp.Bridge.Ledger.Operation.{
  MintedLock, PaymentAllocation, recorded_fields, minted_lock, payment_instrument,
  payment_allocation, locked_payment,
}
use canton_treasury_dvp.Bridge.Ledger.Operation.Outputs.{
  Settlement, Outputs, Delivered, settlement, settlement_outputs, delivered,
}
use canton_treasury_dvp.Bridge.Ledger.Operation.Redemption.{
  redemption_request, gateway_redeem, redeemed_lock,
}

-- The trade that a binding names.
unfoldable pub bound_trade : CreatedFact → Result Text Text
bound_trade binding = do
  args ← ok_or binding.arguments (missing (codes "BridgeTradeBinding arguments"))
  require_text args (codes "tradeCid") (codes "bound trade")

unfoldable pub connect_canton_history :
    CantonHistory → CantonLedgerExpectation → Result Text CantonLedgerEvidence
unfolding bound_trade
connect_canton_history history x = do
  recorded_fields x
  lock ← minted_lock history x
  payment ← payment_instrument history x lock
  binding ←
      authorized_binding history x.lock_id lock.mint_holding lock.minted.update_id
        lock.cash_registry lock.buyer
  trade ← bound_trade binding
  allocated ← payment_allocation history x lock payment
  payment_locked ←
      allocation_locked_holding history allocated.payment_allocation allocated.allocate_update
  locked_payment history x lock payment allocated payment_locked
  settled ← settlement history trade allocated payment_locked
  out ← settlement_outputs history x lock.buyer allocated.seller settled
  goods ← delivered x lock.buyer allocated.seller payment out
  request ← redemption_request history x allocated.seller payment out.seller_payment
  redeem ← gateway_redeem history request.0 lock.minted binding out.seller_payment
  redeemed ← redeemed_lock history x allocated.seller redeem.update_id
  ok (record {
    lock_id = x.lock_id;
    mint_holding = lock.mint_holding;
    mint_consumed = true;
    buyer_treasury = out.buyer_treasury.cid;
    seller_payment = out.seller_payment.cid;
    seller_burned = true;
    redeemed_lock = redeemed.cid;
    payout_destination = request.1;
    payment_amount = goods.payment_amount;
    treasury_amount = goods.treasury_amount;
    instrument_id = payment.0;
    settle_seen = true;
    redeem_seen = true;
    payment_allocation = allocated.payment_allocation;
    payment_locked = payment_locked;
    allocate_update = allocated.allocate_update;
    settle_update = settled.settle_update;
    redeem_update = redeem.update_id;
    buyer = lock.buyer;
    seller = allocated.seller;
    payment_admin = payment.1;
    treasury_instrument = goods.treasury_instrument;
    treasury_admin = goods.treasury_admin;
    trade_cid = trade;
  })
