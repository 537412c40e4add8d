-- ===== src/Bridge/Workflow/Reserve.antt =====
-- bridge/src/workflow.rs: the reservation on the Zama contract.
use canton_treasury_dvp.Base.{
  ℕ, Bool, true, false, ◌||◌, Option, none, some, Result, ok, err, codes, ◌==◌,
}
use canton_treasury_dvp.Bridge.Units.{Text}
use canton_treasury_dvp.Bridge.Journal.{apply_zama_receipt}
use canton_treasury_dvp.Bridge.Reservation.{
  ReservationAction, submit_reserve, resume_approved, record_completed, reservation_resume,
  reservation_reserved, reservation_finalized, reservation_redeemed,
}
use canton_treasury_dvp.Bridge.Workflow.{
  Services, Act, ZamaReceipt, zama_reserve, zama_cancel, reservation, ◌>>=◌, ◌>>◌, return, ask,
  request, attempt, ensure, lift, get_journal, set_journal, save, persist,
}

module _ {W : Type 0} (services : Services W) where
  unfoldable pub record_receipt : Text → ZamaReceipt → Act W (Unit {0})
  unfolding ◌>>=◌ get_journal set_journal apply_zama_receipt
  record_receipt kind receipt =
      get_journal >>= λ j. set_journal (apply_zama_receipt j kind receipt.tx_hash receipt.gas_used)

  -- The approval is read for a status that it can matter to.
  unfoldable pub approval_for : Text → Result Text ℕ → Act W (Option (Result Text Bool))
  unfolding ◌>>=◌ return attempt
  approval_for hex (err e) = return none
  approval_for hex (ok status) =
      elim (status == reservation_reserved
        || status == reservation_finalized
        || status == reservation_redeemed) [
          | true ↦ attempt (services.approved hex) >>= λ approved. return (some approved)
          | false ↦ return none
        ]

  unfoldable pub submit : Text → ℕ → ReservationAction → Act W ReservationAction
  unfolding ◌>>=◌ ◌>>◌ return request ensure record_receipt persist
  submit hex amount submit_reserve = do
    receipt ← request (zama_reserve hex amount) (services.zama_call (zama_reserve hex amount))
    ensure receipt.approved
        (codes "Zama rejected the reservation; no lock or mint will be attempted")
    record_receipt (codes "reserve") receipt
    persist services
    return submit_reserve
  submit hex amount resume_approved = return resume_approved
  submit hex amount record_completed = return record_completed

  unfoldable pub reserve_once : Text → ℕ → Act W ReservationAction
  unfolding ◌>>=◌ attempt approval_for lift reservation_resume submit
  reserve_once hex amount = do
    status ← attempt (services.status hex)
    approved ← approval_for hex status
    action ← lift reservation (reservation_resume status approved)
    submit hex amount action

  unfoldable pub cancel_by_status : Text → ℕ → Act W (Unit {0})
  unfolding ◌>>=◌ ◌>>◌ return request ensure record_receipt save
  cancel_by_status hex status = elim (status == 1) [
    | true ↦ do
      receipt ← request (zama_cancel hex) (services.zama_call (zama_cancel hex))
      record_receipt (codes "cancel") receipt
      save services
    | false ↦ ensure (status == 3) (codes "unexpected zama status after cancel")
  ]

  unfoldable pub cancel_zama_if_reserved : Text → Act W (Unit {0})
  unfolding ◌>>=◌ ask cancel_by_status
  cancel_zama_if_reserved hex = ask (services.status hex) >>= cancel_by_status hex
