-- ===== src/Bridge/Reservation.antt =====
-- bridge/src/reservation.rs: how the workflow goes on from the reservation's status on the Zama
-- contract. A failed read carries its message.
pub mod Resumption
use canton_treasury_dvp.Base.{
  ℕ, ◌≡◌, Bool, true, false, Option, none, some, Bytes, Result, ok, err, ◌>>=◌, ◌>>◌, require,
  ok_or, map_err, ◌==◌, ◌||◌, if◌then◌else◌,
}

abbrev pub reservation_empty : ℕ
reservation_empty = 0

abbrev pub reservation_reserved : ℕ
reservation_reserved = 1

abbrev pub reservation_finalized : ℕ
reservation_finalized = 2

abbrev pub reservation_cancelled : ℕ
reservation_cancelled = 3

abbrev pub reservation_redeemed : ℕ
reservation_redeemed = 4

pub data ReservationAction : Type 0 where
  submit_reserve resume_approved record_completed : ReservationAction

pub data ReservationError : Type 0 where
  approval_unread rejected was_cancelled : ReservationError
  approval_failed : Bytes → ReservationError
  status_failed : Bytes → ReservationError
  unexpected_status : ℕ → ReservationError

unfoldable pub require_approved : Option (Result Bytes Bool) → Result ReservationError (Unit {0})
require_approved approved = do
  was_read ← ok_or approved approval_unread
  is_approved ← map_err approval_failed was_read
  require is_approved rejected

unfoldable pub reservation_resume :
    Result Bytes ℕ → Option (Result Bytes Bool) → Result ReservationError ReservationAction
unfolding require_approved
reservation_resume read_status approved = do
  status ← map_err status_failed read_status
  if status == reservation_empty
      then ok submit_reserve
      else if status == reservation_reserved || status == reservation_finalized
      then (require_approved approved >> ok resume_approved)
      else if status == reservation_cancelled
      then err was_cancelled
      else if status == reservation_redeemed
      then (require_approved approved >> ok record_completed)
      else err (unexpected_status status)
