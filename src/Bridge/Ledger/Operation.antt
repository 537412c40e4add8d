-- ===== src/Bridge/Ledger/Operation.antt =====
-- bridge/src/canton_history.rs: the stages of `connect_canton_history`, from the minted lock to the
-- outputs of the settlement. Each returns the source's variables that later stages read.
pub mod Outputs
pub mod Redemption
use canton_treasury_dvp.Base.{
  ℕ, Bool, true, false, ◌&&◌, ◌||◌, not, Option, none, some, List, [], ◌∷◌, ◌++◌, Result, ok, err,
  ◌>>=◌, ◌>>◌, require, ok_or, bytes_eq, codes, any,
}
use canton_treasury_dvp.Bridge.Units.{Text, is_empty}
use canton_treasury_dvp.Bridge.Evidence.{CantonLedgerExpectation}
use canton_treasury_dvp.Bridge.Ledger.{
  LedgerValue, field, field_text, missing, require_text, require_numeric, require_amount,
  require_instrument, is_text, value_contains_cid, allocation_cid_for_leg,
}
use canton_treasury_dvp.Bridge.Ledger.Facts.{
  CreatedFact, ExercisedFact, CantonHistory, template_ends, unique_created, unique_exercised,
  consumed_in, created_by_cid, another_operation,
}
use canton_treasury_dvp.Bridge.Ledger.Steps.{same_text, retitle, is_some_and}

unfoldable pub recorded_fields : CantonLedgerExpectation → Result Text (Unit {0})
recorded_fields x =
    require
      (not (
        is_empty x.lock_id
        || is_empty x.mint_holding
        || is_empty x.payout_destination
        || is_empty x.canton_amount
        || is_empty x.treasury_amount))
      (codes "Canton completion is missing recorded operation fields")

abbrev pub is_other : Option Text → Text → Bool
is_other none t = false
is_other (some s) t = not (bytes_eq s t)

-- Another lock that was minted for the same holding.
unfoldable pub minted_elsewhere : CantonLedgerExpectation → CreatedFact → Bool
unfolding template_ends
minted_elsewhere x fact =
    template_ends fact (codes "MintedLock")
    && is_text (field_text fact.arguments (codes "holdingCid")) x.mint_holding
    && is_other (field_text fact.arguments (codes "lockId")) x.lock_id

pub record MintedLock : Type 0 where
  pub minted : CreatedFact
  pub mint_holding : Text
  pub buyer : Text
  pub cash_registry : Text

unfoldable pub minted_lock : CantonHistory → CantonLedgerExpectation → Result Text MintedLock
unfolding minted_elsewhere
minted_lock history x = do
  minted ←
      unique_created history (codes "MintedLock")
        (λ fact. is_text (field_text fact.arguments (codes "lockId")) x.lock_id)
  args ← ok_or minted.arguments (missing (codes "minted lock arguments"))
  mint_holding ← require_text args (codes "holdingCid") (codes "minted holding")
  same_text mint_holding x.mint_holding another_operation
  require (not (any (minted_elsewhere x) history.created)) another_operation
  mint_amount ← require_numeric args (codes "amount") (codes "minted amount")
  require_amount mint_amount x.canton_amount (codes "minted amount")
  buyer ← require_text args (codes "beneficiary") (codes "buyer")
  cash_registry ← require_text args (codes "cashRegistry") (codes "cash registry")
  ok (record {
    minted = minted;
    mint_holding = mint_holding;
    buyer = buyer;
    cash_registry = cash_registry;
  })

-- The payment instrument of the minted holding, and its administrator.
unfoldable pub payment_instrument :
    CantonHistory → CantonLedgerExpectation → MintedLock → Result Text (Text × Text)
unfolding template_ends
payment_instrument history x lock = do
  holding ←
      ok_or (created_by_cid history lock.mint_holding)
        (missing (codes "the minted holding contract"))
  require (template_ends holding (codes "StablecoinHolding"))
      (missing (codes "the minted stablecoin holding"))
  args ← ok_or holding.arguments (missing (codes "minted holding arguments"))
  owner ← require_text args (codes "owner") (codes "minted holding owner")
  same_text owner lock.buyer (codes "minted holding owner does not match the buyer")
  amount ← require_numeric args (codes "amount") (codes "minted holding amount")
  require_amount amount x.canton_amount (codes "minted holding amount")
  instrument ← require_instrument args (codes "payment instrument")
  same_text instrument.1 lock.cash_registry
      (codes "payment instrument admin does not match the cash registry")
  ok instrument

-- `left != instrument || right != admin`
abbrev pub same_instrument : Text × Text → Text × Text → Text → Result Text (Unit {0})
same_instrument left right message =
    require (bytes_eq left.0 right.0 && bytes_eq left.1 right.1) message

pub record PaymentAllocation : Type 0 where
  pub allocate_update : Text
  pub payment_allocation : Text
  pub seller : Text

unfoldable pub payment_allocation :
    CantonHistory
    → CantonLedgerExpectation
    → MintedLock
    → Text × Text
    → Result Text PaymentAllocation
payment_allocation history x lock payment = do
  allocate ← unique_exercised history (codes "AllocationFactory_Allocate") (λ fact.
      is_some_and fact.argument (λ argument. value_contains_cid argument lock.mint_holding))
  args ← ok_or allocate.argument (missing (codes "payment allocation arguments"))
  result ← ok_or allocate.result (missing (codes "payment allocation result"))
  require (consumed_in history lock.mint_holding allocate.update_id)
      (codes "minted holding was not consumed by its payment allocation")
  allocation ← require_text result (codes "allocationCid") (codes "payment allocation")
  admin ← require_text args (codes "expectedAdmin") (codes "payment allocation admin")
  same_text admin payment.1 (codes "payment allocation admin does not match the payment instrument")
  leg ← ok_or (field args (codes "transferLeg")) (missing (codes "payment transfer leg"))
  sender ← require_text leg (codes "sender") (codes "payment sender")
  seller ← require_text leg (codes "receiver") (codes "seller")
  same_text sender lock.buyer (codes "payment allocation sender does not match the buyer")
  amount ← require_numeric leg (codes "amount") (codes "payment allocation amount")
  require_amount amount x.canton_amount (codes "payment allocation amount")
  leg_instrument ← require_instrument leg (codes "payment allocation instrument")
  same_instrument leg_instrument payment
      (codes "payment allocation instrument does not match the minted holding")
  ok (record {
    allocate_update = allocate.update_id;
    payment_allocation = allocation;
    seller = seller;
  })

-- The checks on the holding that the payment allocation locks.
unfoldable pub locked_payment :
    CantonHistory
    → CantonLedgerExpectation
    → MintedLock
    → Text × Text
    → PaymentAllocation
    → Text
    → Result Text (Unit {0})
locked_payment history x lock payment allocated payment_locked = do
  locked ←
      ok_or (created_by_cid history payment_locked) (missing (codes "the locked payment holding"))
  same_text locked.update_id allocated.allocate_update
      (codes "locked payment holding was not created by the payment allocation")
  args ← ok_or locked.arguments (missing (codes "locked payment arguments"))
  owner ← require_text args (codes "owner") (codes "locked payment owner")
  same_text owner lock.buyer (codes "locked payment owner does not match the buyer")
  amount ← require_numeric args (codes "amount") (codes "locked payment amount")
  require_amount amount x.canton_amount (codes "locked payment amount")
  instrument ← require_instrument args (codes "locked payment instrument")
  same_instrument instrument payment
      (codes "locked payment instrument does not match the minted holding")
