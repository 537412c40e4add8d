-- ===== src/Bridge/Workflow/Once.antt =====
-- bridge/src/workflow.rs: how often `release_once` sends a movement out of the vault.
use canton_treasury_dvp.Base.{
  ℕ, ◌+◌, ◌≤◌, refl, true, false, ◌&&◌, ◌||◌, not, Option, pos, ltb_ℤ, eqb_ℤ, ◌==◌, to_le_bytes,
  length, bytes_eq,
}
use canton_treasury_dvp.Bridge.Units.{Text, is_empty}
use canton_treasury_dvp.Bridge.Canonical.{direction_release}
use canton_treasury_dvp.Bridge.Reservation.{reservation_redeemed, reservation_finalized}
use canton_treasury_dvp.Bridge.Journal.{
  Journal, reached, redeemed, released, release_approved, zama_redeemed,
}
use canton_treasury_dvp.Bridge.Recovery.{
  should_submit_release, should_apply_pending, is_status, receipt_released, receipt_cancelled,
  should_refresh_release_materials,
}
use canton_treasury_dvp.Bridge.Ledger.Steps.{contains}
use canton_treasury_dvp.Bridge.Workflow.{
  Services, Options, Context, Run, Movement, ZamaReceipt, Failure, zama_redeem, movement,
  apply_pending, send,
}
use canton_treasury_dvp.Bridge.Workflow.Release.{
  Texts, decode_sized, stored_materials, new_materials, release_materials, inspect_public_leak,
  note_fault_recovered, send_release, release_if_needed, release_movement, release_digest,
}
use canton_treasury_dvp.Bridge.Workflow.Reserve.{record_receipt}
use canton_treasury_dvp.Bridge.Workflow.Payout.{
  check_release, refresh_materials, settle_pending, redeem_by_status, redeem_reservation,
  finish_release, release_with, release_once,
}
use canton_treasury_dvp.Bridge.Workflow.Counted.{
  count, Sends, Sends-after, Sends-before, Sends-then, Sends-then_none, Sends-weaken, Sends-return,
  Sends-ask, Sends-lift, Sends-request, Sends-other, Sends-if, Sends-elim, Sends-option,
  Sends-ensure, Sends-get, Sends-set, Sends-save, Sends-stop, Sends-clock, Sends-receipt,
  Sends-approval,
}
use canton_treasury_dvp.Bridge.Workflow.Spent.{is_movement, approve_needed-Sends}

module _ {W : Type 0} (services : Services W) (options : Options) (texts : Texts)
    (context : Context) where
  decode_sized-Sends :
      (size : ℕ) (t : Text) → Sends is_movement 0 (decode_sized {W = W} texts size t)
  unfolding decode_sized
  decode_sized-Sends size t =
      Sends-after (Sends-lift Failure.service (texts.from_hex t))
        λ bytes. Sends-then (Sends-ensure (length bytes == size) _) (Sends-return bytes)

  stored_materials-Sends :
      (j : Journal) → Sends is_movement 0 (stored_materials services options texts context j)
  unfolding stored_materials
  stored_materials-Sends j = Sends-after (decode_sized-Sends 32 j.release_proof_hex) λ proof.
      Sends-after (decode_sized-Sends 167 j.release_transfer_hex) λ transfer_data.
        Sends-after (Sends-lift Failure.service (texts.from_base58 j.release_equality)) λ equality.
          Sends-after (Sends-lift Failure.service (texts.from_base58 j.release_validity))
            λ validity.
              Sends-after (Sends-lift Failure.service (texts.from_base58 j.release_range))
                λ range. Sends-return _

  new_materials-Sends : Sends is_movement 0 (new_materials services options texts context)
  unfolding new_materials
  new_materials-Sends =
      Sends-after
        (Sends-ask
          (services.generate_transfer_proofs context.vault context.destination context.amount))
        λ p. Sends-after (Sends-clock services) λ now.
          Sends-after Sends-get
            λ j. Sends-then (Sends-set _) (Sends-then (Sends-save services) (Sends-return _))

  release_materials-Sends : Sends is_movement 0 (release_materials services options texts context)
  unfolding release_materials
  release_materials-Sends = Sends-after Sends-get λ j.
      Sends-elim (ltb_ℤ (pos 0) j.release_expiry && not (is_empty j.release_transfer_hex))
        (stored_materials-Sends j) new_materials-Sends

  note_fault_recovered-Sends :
      Sends is_movement 0 (note_fault_recovered services options texts context)
  unfolding note_fault_recovered
  note_fault_recovered-Sends = Sends-after Sends-get λ j.
      Sends-elim
        (eqb_ℤ j.fault_injected_chain_time (pos 0)
          || not (eqb_ℤ j.fault_recovered_chain_time (pos 0)))
        (Sends-return tt)
        (Sends-after (Sends-clock services) λ now.
          Sends-then (Sends-set _)
            (Sends-if options.omit_journal_save (Sends-return tt) (Sends-save services)))

  inspect_public_leak-Sends :
      (m : Movement) → Sends is_movement 0 (inspect_public_leak services options texts context m)
  unfolding inspect_public_leak
  inspect_public_leak-Sends m =
      Sends-ensure (not (contains (services.instruction_data m) (to_le_bytes 8 context.amount))) _

  send_release-Sends :
      (m : Movement) → Sends is_movement 1 (send_release services options texts context m)
  unfolding send_release send
  send_release-Sends m = Sends-then (Sends-ask (services.measure_legacy (movement m))) (
      Sends-before (Sends-request (movement m) (services.submit (movement m))) λ id.
        Sends-after (Sends-ask (services.wait_confirmed id)) λ sig.
          Sends-then (Sends-ask (services.confirm_on_chain sig)) (
            Sends-after Sends-get λ j. Sends-then (Sends-set _) (
              Sends-then (inspect_public_leak-Sends m) (
                Sends-then note_fault_recovered-Sends (
                  Sends-after (Sends-receipt services context.receipt) λ status.
                    Sends-option status (Sends-return tt)
                      λ s. Sends-ensure (s == receipt_released) _)))))

  release_if_needed-Sends :
      (status : Option ℕ)
      → Sends is_movement 1 (release_if_needed services options texts context status)
  unfolding release_if_needed
  release_if_needed-Sends status = Sends-after Sends-get λ j.
      Sends-elim (should_submit_release (reached j released) status)
        (Sends-after release_materials-Sends λ m.
          Sends-after
            (approve_needed-Sends services options direction_release context.operation m.expiry
              (release_digest services options texts context m))
            λ submitted.
              Sends-elim options.halt_after_first_approval (Sends-weaken (Sends-return true)) (
                Sends-after (Sends-stop services options release_approved) λ stop.
                  Sends-elim stop (Sends-weaken (Sends-return true)) (
                    Sends-then_none
                      (send_release-Sends (release_movement services options texts context m))
                      (Sends-return false))))
        (Sends-weaken (Sends-return false))

  pub check_release-Sends : Sends is_movement 0 (check_release services options texts context)
  unfolding check_release
  check_release-Sends = Sends-after Sends-get λ j.
      Sends-then (Sends-ensure (bytes_eq context.destination_text j.payout_destination) _) (
        Sends-if context.include_canton_zama (Sends-ensure (reached j redeemed) _)
          (Sends-return tt))

  refresh_materials-Sends :
      (status : Option ℕ)
      → Sends is_movement 0 (refresh_materials services options texts context status)
  unfolding refresh_materials
  refresh_materials-Sends status = Sends-after (Sends-clock services) λ now.
      Sends-after
        (Sends-approval services (services.approval_pda context.operation direction_release))
        λ on_chain. Sends-after Sends-get λ j.
          Sends-elim (should_refresh_release_materials now on_chain j.release_expiry status)
            (Sends-set _) (Sends-return tt)

  settle_pending-Sends : Sends is_movement 0 (settle_pending services options texts context)
  unfolding settle_pending send
  settle_pending-Sends =
      Sends-after (Sends-ask (services.pending_credit_counter context.destination)) λ pending.
        Sends-after (Sends-ask (services.decrypt_available context.destination)) λ available.
          Sends-after
            (Sends-lift Failure.recovery (should_apply_pending pending available context.amount))
            λ apply.
              Sends-elim apply
                (Sends-after
                  (Sends-other (apply_pending context.destination context.amount pending)
                    (services.submit (apply_pending context.destination context.amount pending))
                    refl)
                  λ done.
                    Sends-after (Sends-ask (services.decrypt_available context.destination)) λ paid.
                      Sends-then (Sends-ensure (paid == context.amount) _) (
                        Sends-after
                          (Sends-ask (services.pending_credit_counter context.destination))
                          λ counted. Sends-return tt))
                (Sends-return tt)

  record_receipt-Sends :
      (kind : Text) (receipt : ZamaReceipt)
      → Sends is_movement 0 (record_receipt services kind receipt)
  unfolding record_receipt
  record_receipt-Sends kind receipt = Sends-after Sends-get λ j. Sends-set _

  redeem_by_status-Sends :
      (status : ℕ) → Sends is_movement 0 (redeem_by_status services options texts context status)
  unfolding redeem_by_status
  redeem_by_status-Sends status = Sends-elim (status == reservation_redeemed) (Sends-return tt) (
      Sends-elim (status == reservation_finalized)
        (Sends-after
          (Sends-other (zama_redeem context.reservation_hex)
            (services.zama_call (zama_redeem context.reservation_hex)) refl)
          λ receipt. Sends-then (record_receipt-Sends _ receipt) (Sends-save services))
        (Sends-ensure false _))

  redeem_reservation-Sends : Sends is_movement 0 (redeem_reservation services options texts context)
  unfolding redeem_reservation
  redeem_reservation-Sends = Sends-after Sends-get λ j.
      Sends-elim (context.include_canton_zama && not (reached j zama_redeemed))
        (Sends-after (Sends-ask (services.status context.reservation_hex)) redeem_by_status-Sends)
        (Sends-return tt)

  finish_release-Sends : Sends is_movement 0 (finish_release services options texts context)
  unfolding finish_release
  finish_release-Sends = Sends-then settle_pending-Sends (
      Sends-after (Sends-stop services options released) λ stop. Sends-elim stop (Sends-return tt) (
        Sends-then redeem_reservation-Sends
          (Sends-after (Sends-stop services options zama_redeemed) λ last. Sends-return tt)))

  pub release_with-Sends :
      {n : ℕ} (status : Option ℕ)
      → Sends is_movement n (release_if_needed services options texts context status)
      → Sends is_movement n (release_with services options texts context status)
  unfolding release_with
  release_with-Sends status payout =
      Sends-then (Sends-ensure (not (is_status receipt_cancelled status)) _) (
        Sends-then (refresh_materials-Sends status)
          (Sends-before payout λ stop. Sends-elim stop (Sends-return tt) finish_release-Sends))

  release_once-Sends : Sends is_movement 1 (release_once services options texts context)
  unfolding release_once
  release_once-Sends = Sends-then check_release-Sends (
      Sends-after (Sends-receipt services context.receipt)
        λ status. release_with-Sends status (release_if_needed-Sends status))

  -- `release_once` sends at most one movement, on whatever the services answer and however it ends.
  pub release_once-count :
      (r : Run W)
      → count is_movement (release_once services options texts context r).1.sent
        ≤ count is_movement r.sent + 1
  release_once-count r = release_once-Sends.bound r
