-- ===== src/Bridge/Ledger/Operation/Redemption.antt =====
-- bridge/src/canton_history.rs: the request to redeem the seller's payment, and its redemption.
use canton_treasury_dvp.Base.{
  Bool, ◌&&◌, some, Result, ok, ◌>>=◌, ◌>>◌, require, ok_or, bytes_eq, codes, any,
}
use canton_treasury_dvp.Bridge.Units.{Text}
use canton_treasury_dvp.Bridge.Evidence.{CantonLedgerExpectation}
use canton_treasury_dvp.Bridge.Ledger.{
  field_text, missing, require_text, require_numeric, require_amount, require_instrument, is_text,
}
use canton_treasury_dvp.Bridge.Ledger.Facts.{
  CreatedFact, ExercisedFact, CantonHistory, unique_created, unique_exercised, consumed_in,
}
use canton_treasury_dvp.Bridge.Ledger.Steps.{same_text, retitle, is_some_and}
use canton_treasury_dvp.Bridge.Ledger.Operation.{same_instrument}

-- The request and its payout destination.
unfoldable pub redemption_request :
    CantonHistory
    → CantonLedgerExpectation
    → Text
    → Text × Text
    → CreatedFact
    → Result Text (CreatedFact × Text)
redemption_request history x seller payment seller_payment = do
  request ←
      unique_created history (codes "RedemptionRequest")
        (λ fact. is_text (field_text fact.arguments (codes "lockId")) x.lock_id)
  args ← ok_or request.arguments (missing (codes "redemption request arguments"))
  holding ← require_text args (codes "holdingCid") (codes "redemption holding")
  same_text holding seller_payment.cid
      (codes "redemption request is not connected to this operation's seller payment")
  payout ← require_text args (codes "payoutDestination") (codes "redemption payout")
  same_text payout x.payout_destination
      (codes "Canton payout destination does not match the recorded operation")
  amount ← require_numeric args (codes "amount") (codes "redemption amount")
  require_amount amount x.canton_amount (codes "redemption amount")
  holder ← require_text args (codes "holder") (codes "redemption holder")
  same_text holder seller (codes "redemption holder does not match the seller")
  instrument ← require_instrument args (codes "redemption instrument")
  same_instrument instrument payment
      (codes "redemption instrument does not match the payment instrument")
  ok (request, payout)

-- The consuming burn of a holding in an update.
unfoldable pub is_burn : Text → Text → ExercisedFact → Bool
is_burn cid update_id fact =
    bytes_eq fact.choice (codes "Burn")
    && fact.consuming
    && bytes_eq fact.cid cid
    && bytes_eq fact.update_id update_id

unfoldable pub gateway_redeem :
    CantonHistory
    → CreatedFact
    → CreatedFact
    → CreatedFact
    → CreatedFact
    → Result Text ExercisedFact
unfolding is_burn
gateway_redeem history request minted binding seller_payment = do
  redeem ←
      retitle (codes "Gateway_Redeem is not connected to this operation's redemption request") (
        unique_exercised history (codes "Gateway_Redeem") (λ fact.
          is_some_and fact.argument
            (λ argument. is_text (field_text (some argument) (codes "requestCid")) request.cid)))
  args ← ok_or redeem.argument (missing (codes "Gateway_Redeem arguments"))
  minted_cid ← require_text args (codes "mintedLockCid") (codes "redeemed minted lock")
  same_text minted_cid minted.cid
      (codes "Gateway_Redeem is not connected to this operation's minted lock")
  binding_cid ← require_text args (codes "bindingCid") (codes "redeemed binding")
  same_text binding_cid binding.cid
      (codes "Gateway_Redeem is not connected to this operation's trade binding")
  require
      (consumed_in history seller_payment.cid redeem.update_id
        && any (is_burn seller_payment.cid redeem.update_id) history.exercised)
      (codes "seller payment burn is not connected to Gateway_Redeem")
  ok redeem

unfoldable pub redeemed_lock :
    CantonHistory → CantonLedgerExpectation → Text → Text → Result Text CreatedFact
redeemed_lock history x seller redeem_update = do
  redeemed ← unique_created history (codes "RedeemedLock") (λ fact.
      bytes_eq fact.update_id redeem_update
      && is_text (field_text fact.arguments (codes "lockId")) x.lock_id)
  args ← ok_or redeemed.arguments (missing (codes "RedeemedLock arguments"))
  amount ← require_numeric args (codes "amount") (codes "redeemed amount")
  require_amount amount x.canton_amount (codes "redeemed amount")
  holder ← require_text args (codes "holder") (codes "redeemed holder")
  same_text holder seller (codes "RedeemedLock holder does not match the seller")
  ok redeemed
