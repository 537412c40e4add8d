-- ===== src/Bridge/Workflow/Payout.antt =====
-- bridge/src/workflow.rs: `release_once`, from the checks before the payout to the redemption of the
-- reservation.
use canton_treasury_dvp.Base.{
  ℕ, true, false, ◌&&◌, not, Option, [], pos, codes, ◌==◌, if◌then◌else◌, bytes_eq,
}
use canton_treasury_dvp.Bridge.Canonical.{direction_release}
use canton_treasury_dvp.Bridge.Reservation.{reservation_redeemed, reservation_finalized}
use canton_treasury_dvp.Bridge.Journal.{redeemed, released, zama_redeemed, reached}
use canton_treasury_dvp.Bridge.Recovery.{
  is_status, receipt_cancelled, should_refresh_release_materials, should_apply_pending,
}
use canton_treasury_dvp.Bridge.Workflow.{
  Services, Options, Context, Act, apply_pending, zama_redeem, recovery, ◌>>=◌, ◌>>◌, return, ask,
  request, ensure, lift, get_journal, set_journal, save, send, stop_here, read_receipt_status,
  read_approval, chain_unix_timestamp,
}
use canton_treasury_dvp.Bridge.Workflow.Release.{Texts, release_if_needed}
use canton_treasury_dvp.Bridge.Workflow.Reserve.{record_receipt}

module _ {W : Type 0} (services : Services W) (options : Options) (texts : Texts)
    (context : Context) where
  unfoldable pub check_release : Act W (Unit {0})
  unfolding ◌>>=◌ ◌>>◌ return ensure get_journal reached
  check_release = do
    j ← get_journal
    ensure (bytes_eq context.destination_text j.payout_destination)
        (codes "payout destination changed")
    if context.include_canton_zama
        then ensure (reached j redeemed) (codes "release requires redemption evidence")
        else return tt

  -- Drops the materials of an approval that has expired.
  unfoldable pub refresh_materials : Option ℕ → Act W (Unit {0})
  unfolding ◌>>=◌ return get_journal set_journal read_approval chain_unix_timestamp
      should_refresh_release_materials
  refresh_materials status = do
    chain_now ← chain_unix_timestamp services
    on_chain ← read_approval services (services.approval_pda context.operation direction_release)
    j ← get_journal
    elim (should_refresh_release_materials chain_now on_chain j.release_expiry status) [
      | false ↦ return tt
      | true ↦ set_journal (record j {
        release_expiry = pos 0;
        release_proof_hex = [];
        release_transfer_hex = [];
        release_equality = [];
        release_validity = [];
        release_range = [];
      })
    ]

  unfoldable pub settle_pending : Act W (Unit {0})
  unfolding ◌>>=◌ ◌>>◌ return ask ensure lift send should_apply_pending
  settle_pending = do
    dest_pending ← ask (services.pending_credit_counter context.destination)
    dest_available ← ask (services.decrypt_available context.destination)
    apply ← lift recovery (should_apply_pending dest_pending dest_available context.amount)
    elim apply [
      | false ↦ return tt
      | true ↦ do
        done ← send services (apply_pending context.destination context.amount dest_pending)
        dest_after ← ask (services.decrypt_available context.destination)
        ensure (dest_after == context.amount) (codes "destination available after apply-pending")
        counted ← ask (services.pending_credit_counter context.destination)
        return tt
    ]

  unfoldable pub redeem_by_status : ℕ → Act W (Unit {0})
  unfolding ◌>>=◌ ◌>>◌ return request ensure record_receipt save
  redeem_by_status status = elim (status == reservation_redeemed) [
    | true ↦ return tt
    | false ↦ elim (status == reservation_finalized) [
      | true ↦ do
        receipt ←
            request (zama_redeem context.reservation_hex)
              (services.zama_call (zama_redeem context.reservation_hex))
        record_receipt services (codes "redeem") receipt
        save services
      | false ↦ ensure false (codes "unexpected zama status before redeem")
    ]
  ]

  unfoldable pub redeem_reservation : Act W (Unit {0})
  unfolding ◌>>=◌ return ask get_journal redeem_by_status
  redeem_reservation = get_journal >>= λ j.
      elim (context.include_canton_zama && not (reached j zama_redeemed)) [
        | true ↦ ask (services.status context.reservation_hex) >>= redeem_by_status
        | false ↦ return tt
      ]

  -- What follows the payout.
  unfoldable pub finish_release : Act W (Unit {0})
  unfolding ◌>>=◌ ◌>>◌ return stop_here settle_pending redeem_reservation
  finish_release = do
    settle_pending
    stop ← stop_here services options released
    elim stop [
      | true ↦ return tt
      | false ↦
          redeem_reservation >> (stop_here services options zama_redeemed >>= λ last. return tt)
    ]

  -- The rest of `release_once`, with the receipt's status.
  unfoldable pub release_with : Option ℕ → Act W (Unit {0})
  unfolding ◌>>=◌ ◌>>◌ return ensure refresh_materials release_if_needed finish_release
  release_with status = do
    ensure (not (is_status receipt_cancelled status))
        (codes "receipt was cancelled; release is not allowed")
    refresh_materials status
    stop ← release_if_needed services options texts context status
    elim stop [ true ↦ return tt | false ↦ finish_release ]

  unfoldable pub release_once : Act W (Unit {0})
  unfolding ◌>>=◌ ◌>>◌ read_receipt_status check_release release_with
  release_once = check_release >> (read_receipt_status services context.receipt >>= release_with)
