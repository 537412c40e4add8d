-- ===== src/Bridge/Recovery.antt =====
-- bridge/src/recovery.rs: what is still to be done for an operation, from what was read of the
-- chains. A failed read is an `err`.
pub mod Agreement
pub mod Sent
pub mod Completion
pub mod Accounts
use Prim.Native.Nat.{bit_and}
use canton_treasury_dvp.Base.{
  ℕ, ◌+◌, Bool, true, false, ◌&&◌, ◌||◌, not, Option, none, some, Bytes, Result, ok, err, ◌>>=◌,
  ◌>>◌, require, ok_or, map_err, ℤ, pos, ltb_ℤ, eqb_ℤ, bytes_eq, from_u64, from_le_bytes, length,
  slice, get_or, ltb, leb, ◌==◌, if◌then◌else◌,
}
use canton_treasury_dvp.Escrow.State.{count_ones}
use canton_treasury_dvp.Bridge.Reservation.{reservation_redeemed}

pub data CompletionDecision : Type 0 where
  continue record_and_exit : CompletionDecision

pub data RecoveryError : Type 0 where
  status_failed approval_failed receipt_failed pending_failed available_failed :
      Bytes → RecoveryError
  approval_unread rejected not_released balances_differ canton_evidence_missing payout_differs :
      RecoveryError
  authorization_expired mint_authorization_expired approval_already_consumed digest_mismatch :
      RecoveryError
  available_unexpected clock_truncated approval_truncated receipt_truncated : RecoveryError

abbrev pub receipt_locked : ℕ
receipt_locked = 1

abbrev pub receipt_mint_authorized : ℕ
receipt_mint_authorized = 2

abbrev pub receipt_cancelled : ℕ
receipt_cancelled = 3

abbrev pub receipt_released : ℕ
receipt_released = 4

-- `receipt == Some(status)`
abbrev pub is_status : ℕ → Option ℕ → Bool
is_status status none = false
is_status status (some s) = s == status

unfoldable pub completed_operation_decision :
    Result Bytes ℕ
    → Option (Result Bytes Bool)
    → Result Bytes (Option ℕ)
    → Result Bytes ℕ
    → Result Bytes ℕ
    → ℕ
    → Bool
    → Bool
    → Bool
    → Result RecoveryError CompletionDecision
completed_operation_decision zama_status zama_approved receipt_status dest_pending dest_available
      expected_amount has_canton_settlement has_canton_redemption payout_matches =
    do
      status ← map_err status_failed zama_status
      if not (status == reservation_redeemed) then ok continue else (do
        was_read ← ok_or zama_approved approval_unread
        approved ← map_err approval_failed was_read
        require approved rejected
        receipt ← map_err receipt_failed receipt_status
        require (is_status receipt_released receipt) not_released
        pending ← map_err pending_failed dest_pending
        available ← map_err available_failed dest_available
        require (pending == 0 && available == expected_amount) balances_differ
        require (has_canton_settlement && has_canton_redemption) canton_evidence_missing
        require payout_matches payout_differs
        ok record_and_exit)

abbrev pub approval_discriminator : ℕ
approval_discriminator = 8

abbrev pub approval_bitmap_offset : ℕ
approval_bitmap_offset = 73

abbrev pub approval_consumed_offset : ℕ
approval_consumed_offset = 74

abbrev pub approval_expiry_offset : ℕ
approval_expiry_offset = 76

abbrev pub receipt_status_offset : ℕ
receipt_status_offset = 208

pub record OnChainApproval : Type 0 where
  pub signer_bitmap : ℕ
  pub consumed : Bool
  pub expiry : ℤ
  pub digest : Bytes

-- `chain_now >= expiry`
unfoldable pub approval_expired_on_chain : ℤ → ℤ → Bool
approval_expired_on_chain expiry chain_now = not (ltb_ℤ chain_now expiry)

-- `[bool; 2]`: whether the first and the second attester have to sign.
unfoldable pub attesters_needed :
    Option OnChainApproval → Bytes → ℤ → ℤ → Bool → Result RecoveryError (Bool × Bool)
unfolding approval_expired_on_chain
attesters_needed none digest expiry chain_now replace_expired =
    if approval_expired_on_chain expiry chain_now
    then err authorization_expired
    else ok (true, true)
attesters_needed (some existing) digest expiry chain_now replace_expired =
    if existing.consumed
    then err approval_already_consumed
    else if approval_expired_on_chain existing.expiry chain_now
    then (if replace_expired
        then ok (true, true)
        else if bytes_eq existing.digest digest
            && eqb_ℤ existing.expiry expiry
            && leb 2 (count_ones 8 existing.signer_bitmap)
        then ok (false, false)
        else err mint_authorization_expired)
    else if not (bytes_eq existing.digest digest) || not (eqb_ℤ existing.expiry expiry)
    then err digest_mismatch
    else ok (bit_and existing.signer_bitmap 1 == 0, bit_and existing.signer_bitmap 2 == 0)

unfoldable pub should_submit_release : Bool → Option ℕ → Bool
should_submit_release journal_released receipt_status =
    not journal_released && not (is_status receipt_released receipt_status)

unfoldable pub should_apply_pending : ℕ → ℕ → ℕ → Result RecoveryError Bool
should_apply_pending pending available expected_final =
    if pending == 0
    then (if available == expected_final then ok false else err available_unexpected)
    else ok true

unfoldable pub should_refresh_release_materials : ℤ → Option OnChainApproval → ℤ → Option ℕ → Bool
unfolding approval_expired_on_chain
should_refresh_release_materials chain_now none journal_expiry receipt_status =
    if is_status receipt_released receipt_status
    then false
    else ltb_ℤ (pos 0) journal_expiry && approval_expired_on_chain journal_expiry chain_now
should_refresh_release_materials chain_now (some approval) journal_expiry receipt_status =
    if is_status receipt_released receipt_status
    then false
    else if approval.consumed
    then false
    else approval_expired_on_chain approval.expiry chain_now

unfoldable pub decode_chain_clock : Bytes → Result RecoveryError ℤ
decode_chain_clock bytes =
    require (leb 40 (length bytes)) clock_truncated
    >> ok (from_u64 (from_le_bytes (slice 32 8 bytes)))

unfoldable pub decode_approval : Bytes → Result RecoveryError OnChainApproval
decode_approval bytes = do
  require (not (ltb (length bytes) (approval_expiry_offset + 8))) approval_truncated
  ok (record {
    signer_bitmap = get_or bytes approval_bitmap_offset 0;
    consumed = not (get_or bytes approval_consumed_offset 0 == 0);
    expiry = from_u64 (from_le_bytes (slice approval_expiry_offset 8 bytes));
    digest = slice 41 32 bytes;
  })

unfoldable pub decode_receipt_status : Bytes → Result RecoveryError ℕ
decode_receipt_status bytes =
    require (ltb receipt_status_offset (length bytes)) receipt_truncated
    >> ok (get_or bytes receipt_status_offset 0)
