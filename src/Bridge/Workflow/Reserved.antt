-- ===== src/Bridge/Workflow/Reserved.antt =====
-- bridge/src/workflow.rs: what `reserve_once` has seen when it succeeds.
use canton_treasury_dvp.Base.{
  ℕ, ◌≡◌, refl, sym, subst, Bool, true, ◌||◌, Option, none, some, Result, ok, ◌==◌, codes,
}
use canton_treasury_dvp.Bridge.Units.{Text}
use canton_treasury_dvp.Bridge.Reservation.{
  ReservationAction, submit_reserve, resume_approved, record_completed, reservation_empty,
  reservation_resume, reservation_reserved, reservation_finalized, reservation_redeemed,
}
use canton_treasury_dvp.Bridge.Reservation.Resumption.{
  Resumes, from_empty, from_reserved, from_finalized, from_redeemed, reservation_resume-Resumes,
}
use canton_treasury_dvp.Bridge.Workflow.{
  Services, Run, ZamaReceipt, zama_reserve, reservation, return, request, attempt, ensure, lift,
  persist,
}
use canton_treasury_dvp.Bridge.Workflow.Reserve.{approval_for, submit, reserve_once, record_receipt}
use canton_treasury_dvp.Bridge.Workflow.Traced.{on_bind, on_then, ensure-ok, return-ok, lift-ok}

-- How a reservation that is approved already goes on from its status.
pub data Continues : ℕ → ReservationAction → Type 0 where
  from_reservation : Continues reservation_reserved resume_approved
  from_finalization : Continues reservation_finalized resume_approved
  from_redemption : Continues reservation_redeemed record_completed

module _ {W : Type 0} (services : Services W) where
  -- The reads and the request of one run, in their order: the contract has no such reservation and
  -- approves the request for it, which is then recorded and saved; or it says of the one that it has
  -- that it is approved, and the run goes on from its status.
  pub data Approves (hex : Text) (amount : ℕ) (r after : Run W) : ReservationAction → Type 0 where
    newly :
        (asked sent recorded : Run W) (receipt : ZamaReceipt)
        → attempt (services.status hex) r ≡ (ok (ok reservation_empty), asked)
        → request (zama_reserve hex amount) (services.zama_call (zama_reserve hex amount)) asked
          ≡ (ok receipt, sent)
        → receipt.approved ≡ true
        → record_receipt services (codes "reserve") receipt sent ≡ (ok tt, recorded)
        → persist services recorded ≡ (ok tt, after)
        → Approves hex amount r after submit_reserve
    before :
        (asked : Run W) (status : ℕ) (action : ReservationAction)
        → attempt (services.status hex) r ≡ (ok (ok status), asked)
        → attempt (services.approved hex) asked ≡ (ok (ok true), after)
        → Continues status action
        → Approves hex amount r after action

  submitted :
      (hex : Text) (amount : ℕ) (r asked after : Run W) (action : ReservationAction)
      → attempt (services.status hex) r ≡ (ok (ok reservation_empty), asked)
      → submit services hex amount submit_reserve asked ≡ (ok action, after)
      → Approves hex amount r after action
  unfolding submit
  submitted hex amount r asked after action empty ran =
      on_bind (request (zama_reserve hex amount) (services.zama_call (zama_reserve hex amount))) _
        asked ran
        λ receipt t1 e1 h1. on_then (ensure receipt.approved _) _ t1 h1 λ t2 e2 h2.
          on_then (record_receipt services (codes "reserve") receipt) _ t2 h2 λ t3 e3 h3.
            on_then (persist services) (return submit_reserve) t3 h3 λ t4 e4 h4.
              let approved = ensure-ok receipt.approved _ t1 e2 in
              let done = return-ok submit_reserve t4 h4 in
              subst (Approves hex amount r after) done.0 (
                newly asked t1 t3 receipt empty e1 approved.0
                  (subst
                    (λ (t : Run W).
                      record_receipt services (codes "reserve") receipt t ≡ (ok tt, t3))
                    approved.1 e3)
                  (subst (λ (t : Run W). persist services t3 ≡ (ok tt, t)) done.1 e4))

  some-injective : {A : Type 0} {a b : A} → ◌≡◌ {A = Option A} (some a) (some b) → a ≡ b
  some-injective h = cc

  -- For a reservation that is there, the approval is read.
  approved_read :
      (hex : Text) (status : ℕ) (t u : Run W) (read : Result Text Bool)
      → (status == reservation_reserved
          || status == reservation_finalized
          || status == reservation_redeemed)
        ≡ true
      → approval_for services hex (ok status) t ≡ (ok (some read), u)
      → attempt (services.approved hex) t ≡ (ok read, u)
  unfolding approval_for
  approved_read hex status t u read kept ran =
      on_bind (attempt (services.approved hex)) _ t (rw (kept, approval_for) at ran)
        λ answer v e1 h1.
          let done = return-ok (some answer) v h1 in
          subst (λ a. attempt (services.approved hex) t ≡ (ok a, u)) (some-injective done.0)
            (subst (λ (w : Run W). attempt (services.approved hex) t ≡ (ok answer, w)) done.1 e1)

  continued :
      (hex : Text) (amount status : ℕ) (action result : ReservationAction) (r t u after : Run W)
      → (status == reservation_reserved
          || status == reservation_finalized
          || status == reservation_redeemed)
        ≡ true
      → Continues status action
      → attempt (services.status hex) r ≡ (ok (ok status), t)
      → approval_for services hex (ok status) t ≡ (ok (some (ok true)), u)
      → return action u ≡ (ok result, after)
      → Approves hex amount r after result
  continued hex amount status action result r t u after kept on read asks h =
      let done = return-ok action u h in
      subst (Approves hex amount r after) done.0 (
        before t status action read
          (subst (λ (w : Run W). attempt (services.approved hex) t ≡ (ok (ok true), w)) done.1
            (approved_read hex status t u (ok true) kept asks))
          on)

  finish :
      (hex : Text) (amount : ℕ) (status : Result Text ℕ) (read : Option (Result Text Bool))
      (action result : ReservationAction) (r t u after : Run W)
      → Resumes status read action
      → attempt (services.status hex) r ≡ (ok status, t)
      → approval_for services hex status t ≡ (ok read, u)
      → submit services hex amount action u ≡ (ok result, after)
      → Approves hex amount r after result
  unfolding submit approval_for
  finish hex amount status read action result r t u after (from_empty a) e asks h =
      submitted hex amount r t after result e (
        subst (λ (w : Run W). submit services hex amount submit_reserve w ≡ (ok result, after))
          (sym (return-ok none t asks).1) h)
  finish hex amount status read action result r t u after from_reserved e asks h =
      continued hex amount 1 resume_approved result r t u after refl from_reservation e asks h
  finish hex amount status read action result r t u after from_finalized e asks h =
      continued hex amount 2 resume_approved result r t u after refl from_finalization e asks h
  finish hex amount status read action result r t u after from_redeemed e asks h =
      continued hex amount 4 record_completed result r t u after refl from_redemption e asks h

  -- `reserve_once` succeeds only when the Zama contract approves the reservation. In that run, it read
  -- that there was none, and the contract answered the request for one with its approval, which was
  -- recorded and saved; or it read the status of the one that there is, and the contract then said
  -- that it is approved, and the action is that of the status.
  pub reserve_once-Approves :
      (hex : Text) (amount : ℕ) (r after : Run W) (action : ReservationAction)
      → reserve_once services hex amount r ≡ (ok action, after)
      → Approves hex amount r after action
  unfolding reserve_once
  reserve_once-Approves hex amount r after action ran =
      on_bind (attempt (services.status hex)) _ r ran λ status t1 e1 h1.
        on_bind (approval_for services hex status) _ t1 h1 λ read t2 e2 h2.
          on_bind (lift reservation (reservation_resume status read)) _ t2 h2 λ decided t3 e3 h3.
            let l = lift-ok reservation (reservation_resume status read) t2 e3 in
            finish hex amount status read decided action r t1 t2 after
              ((reservation_resume-Resumes status read decided).0 l.0) e1 e2
              (subst (λ (v : Run W). submit services hex amount decided v ≡ (ok action, after)) l.1
                h3)
