-- ===== src/Bridge/Evidence.antt =====
-- bridge/src/canton.rs: the Canton evidence that an operation's completion requires, and the
-- comparison of amounts, in millionths.
pub mod Amounts
pub mod Required
use canton_treasury_dvp.Base.{
  ℕ, ◌*◌, ◌+◌, ◌^◌, Bool, true, false, ◌&&◌, ◌||◌, not, Option, none, some, List, [], ◌∷◌, Bytes,
  bytes_eq, codes, Result, ok, err, ◌>>=◌, ◌>>◌, require, map_err, length, all, ltb, leb, ◌==◌,
  if◌then◌else◌,
}
use canton_treasury_dvp.Bridge.Units.{
  Text, is_ascii_digit, is_empty, trim, split_once, digits_value, pad_right,
}

pub record CantonLedgerExpectation : Type 0 where
  pub lock_id : Text
  pub canton_amount : Text
  pub treasury_amount : Text
  pub payout_destination : Text
  pub mint_holding : Text

pub record CantonLedgerEvidence : Type 0 where
  pub lock_id : Text
  pub mint_holding : Text
  pub mint_consumed : Bool
  pub buyer_treasury : Text
  pub seller_payment : Text
  pub seller_burned : Bool
  pub redeemed_lock : Text
  pub payout_destination : Text
  pub payment_amount : Text
  pub treasury_amount : Text
  pub instrument_id : Text
  pub settle_seen : Bool
  pub redeem_seen : Bool
  pub payment_allocation : Text
  pub payment_locked : Text
  pub allocate_update : Text
  pub settle_update : Text
  pub redeem_update : Text
  pub buyer : Text
  pub seller : Text
  pub payment_admin : Text
  pub treasury_instrument : Text
  pub treasury_admin : Text
  pub trade_cid : Text

pub data EvidenceError : Type 0 where
  unreadable : Text → EvidenceError
  another_operation fields_missing evidence_missing payout_mismatch : EvidenceError
  payment_mismatch treasury_mismatch instrument_mismatch : EvidenceError

-- `trim_end_matches('0')`
unfoldable pub trim_zeros : Text → Text
trim_zeros [] = []
trim_zeros (c ∷ s) = if all (λ x. x == b'0') (c ∷ s) then [] else c ∷ trim_zeros s

-- `parse::<u128>` of a text of digits, other than the empty one.
unfoldable pub parse_u128 : Text → Option ℕ
unfolding digits_value
parse_u128 [] = none
parse_u128 (c ∷ s) =
    if ltb (digits_value 0 (c ∷ s)) (2 ^ 128) then some (digits_value 0 (c ∷ s)) else none

-- `whole * 1_000_000 + frac`, where the sum and the product are a `u128`.
abbrev pub combine : Option ℕ → Option ℕ → Option ℕ
combine none f = none
combine (some w) none = none
combine (some w) (some f) =
    if ltb (w * 1000000) (2 ^ 128)
    then (if ltb (w * 1000000 + f) (2 ^ 128) then some (w * 1000000 + f) else none)
    else none

unfoldable pub base6_of_parts : Text → Text → Option ℕ
unfolding is_ascii_digit
base6_of_parts whole frac =
    if is_empty whole || not (all is_ascii_digit whole)
    then none
    else if not (all is_ascii_digit frac) || not (leb (length frac) 6)
    then none
    else combine (parse_u128 whole) (parse_u128 (pad_right 6 frac))

unfoldable pub base6_parts : Text → Text × Text
base6_parts raw = elim (split_once b'.' raw) [
  | some (whole, frac) ↦ (whole, trim_zeros frac)
  | none ↦ (raw, [])
]

unfoldable pub decimal_to_base6 : Text → Option ℕ
decimal_to_base6 raw = base6_of_parts (base6_parts (trim raw)).0 (base6_parts (trim raw)).1

abbrev pub same_number : Option ℕ → Option ℕ → Bool
same_number (some a) (some b) = a == b
same_number (some a) none = false
same_number none b = false

unfoldable pub canton_amounts_match : Text → Text → Bool
canton_amounts_match left right = same_number (decimal_to_base6 left) (decimal_to_base6 right)

-- No field of the evidence is missing.
unfoldable pub is_whole : CantonLedgerEvidence → Bool
is_whole e =
    not (is_empty e.lock_id)
    && not (is_empty e.mint_holding)
    && not (is_empty e.buyer_treasury)
    && not (is_empty e.seller_payment)
    && not (is_empty e.redeemed_lock)
    && not (is_empty e.payout_destination)
    && not (is_empty e.payment_allocation)
    && not (is_empty e.payment_locked)
    && not (is_empty e.allocate_update)
    && not (is_empty e.settle_update)
    && not (is_empty e.redeem_update)
    && not (is_empty e.buyer)
    && not (is_empty e.seller)
    && not (is_empty e.payment_admin)
    && not (is_empty e.treasury_instrument)
    && not (is_empty e.treasury_admin)
    && not (is_empty e.trade_cid)
    && e.mint_consumed
    && e.seller_burned
    && e.settle_seen
    && e.redeem_seen

unfoldable pub require_canton_ledger_evidence :
    Result Text CantonLedgerEvidence
    → CantonLedgerExpectation
    → Result EvidenceError CantonLedgerEvidence
require_canton_ledger_evidence read x = do
  e ← map_err unreadable read
  require (is_empty e.lock_id || bytes_eq e.lock_id x.lock_id) another_operation
  require
      (not (
        is_empty x.lock_id
        || is_empty x.mint_holding
        || is_empty x.payout_destination
        || is_empty x.canton_amount))
      fields_missing
  require (is_whole e) evidence_missing
  require (bytes_eq e.mint_holding x.mint_holding) another_operation
  require (bytes_eq e.payout_destination x.payout_destination) payout_mismatch
  require (canton_amounts_match e.payment_amount x.canton_amount) payment_mismatch
  require (canton_amounts_match e.treasury_amount x.treasury_amount) treasury_mismatch
  require
      (bytes_eq e.instrument_id (codes "USD-C")
        && bytes_eq e.treasury_instrument (codes "UST-2028-11")
        && not (is_empty e.payment_admin)
        && not (is_empty e.treasury_admin))
      instrument_mismatch
  ok e
