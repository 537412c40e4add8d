-- ===== src/Bridge/Recovery/Completion.antt =====
-- bridge/src/recovery.rs: the evidence behind a completed operation.
use canton_treasury_dvp.Base.{
  ℕ, ◌≡◌, refl, Bool, true, ◌&&◌, Option, none, some, Bytes, Result, ok, err, map_err, ◌==◌, ==_iff,
  arith, Bool-cases, inl, inr, ◌↔◌, on_ok, on_require, on_some, &&_true, ap, ◌∙◌,
}
use canton_treasury_dvp.Bridge.Recovery.{
  completed_operation_decision, CompletionDecision, RecoveryError, record_and_exit, continue,
  is_status, status_failed, approval_failed, receipt_failed, pending_failed, available_failed,
}

-- All that an operation must have left on the three chains.
pub record Completed (zama_status : Result Bytes ℕ) (zama_approved : Option (Result Bytes Bool))
    (receipt_status : Result Bytes (Option ℕ)) (dest_pending dest_available : Result Bytes ℕ)
    (expected_amount : ℕ) (settlement redemption payout : Bool) : Type 0 where
  pub redeemed : zama_status ≡ ok 4
  pub approved : zama_approved ≡ some (ok true)
  pub released : receipt_status ≡ ok (some 4)
  pub nothing_pending : dest_pending ≡ ok 0
  pub all_available : dest_available ≡ ok expected_amount
  pub settled : settlement ≡ true
  pub redeemed_on_canton : redemption ≡ true
  pub paid_out : payout ≡ true

map_err-ok {ℓ} :
    {E F : Type 0} {A : Type ℓ} (f : E → F) (m : Result E A) {a : A} → map_err f m ≡ ok a → m ≡ ok a
map_err-ok f (ok b) h = cc
map_err-ok f (err e) h = cc

is_status-eq : (s : ℕ) (o : Option ℕ) → is_status s o ≡ true → o ≡ some s
is_status-eq s none h = cc
is_status-eq s (some x) h = ap some ((==_iff x s).0 h)

continue_ne_exit :
    ◌≡◌ {A = Result RecoveryError CompletionDecision} (ok continue) (ok record_and_exit) → ⊥
continue_ne_exit h = cc

sound :
    (z : Result Bytes ℕ) (za : Option (Result Bytes Bool)) (r : Result Bytes (Option ℕ))
    (p v : Result Bytes ℕ) (n : ℕ) (s d o : Bool)
    → completed_operation_decision z za r p v n s d o ≡ ok record_and_exit
    → Completed z za r p v n s d o
unfolding completed_operation_decision
sound z za r p v n s d o h = on_ok (map_err status_failed z) _ h λ status ez h1.
    elim (Bool-cases (status == 4)) [
      | inr other ↦ absurd (continue_ne_exit (rw other at h1))
      | inl is_redeemed ↦ on_some za _ _ (rw is_redeemed at h1) λ was_read eza h2.
          on_ok (map_err approval_failed was_read) _ h2 λ is_approved ea h3.
            on_require is_approved _ _ h3 λ yes h4.
              on_ok (map_err receipt_failed r) _ h4 λ status' er h5.
                on_require (is_status 4 status') _ _ h5 λ is_released h6.
                  on_ok (map_err pending_failed p) _ h6 λ pending ep h7.
                    on_ok (map_err available_failed v) _ h7 λ available ev h8.
                      on_require (pending == 0 && available == n) _ _ h8 λ balances h9.
                        on_require (s && d) _ _ h9 λ canton h10. on_require o _ _ h10 λ pays h11.
                          record {
                            redeemed =
                                map_err-ok status_failed z ez
                                ∙ ap ok ((==_iff status 4).0 is_redeemed);
                            approved =
                                eza ∙ ap some (map_err-ok approval_failed was_read ea ∙ ap ok yes);
                            released =
                                map_err-ok receipt_failed r er
                                ∙ ap ok (is_status-eq 4 status' is_released);
                            nothing_pending =
                                map_err-ok pending_failed p ep
                                ∙ ap ok
                                    ((==_iff pending 0).0 (&&_true (pending == 0) _ balances).0);
                            all_available =
                                map_err-ok available_failed v ev
                                ∙ ap ok
                                    ((==_iff available n).0 (&&_true (pending == 0) _ balances).1);
                            settled = (&&_true s d canton).0;
                            redeemed_on_canton = (&&_true s d canton).1;
                            paid_out = pays;
                          }
    ]

complete :
    (z : Result Bytes ℕ) (za : Option (Result Bytes Bool)) (r : Result Bytes (Option ℕ))
    (p v : Result Bytes ℕ) (n : ℕ) (s d o : Bool)
    → Completed z za r p v n s d o
    → completed_operation_decision z za r p v n s d o ≡ ok record_and_exit
unfolding completed_operation_decision
complete z za r p v n s d o c =
    let same : (n == n) ≡ true = ground arith in
    rw
      (
        c.redeemed, c.approved, c.released, c.nothing_pending, c.all_available, c.settled,
        c.redeemed_on_canton, c.paid_out, same,
      )
      refl

-- An operation is recorded as completed exactly when all its evidence was read: the reservation
-- is redeemed and approved, the receipt is released, the destination holds the amount with no
-- credit pending, Canton has the settlement and the redemption, and the payout's destination
-- matches.
pub completed_operation_decision-Completed :
    (z : Result Bytes ℕ) (za : Option (Result Bytes Bool)) (r : Result Bytes (Option ℕ))
    (p v : Result Bytes ℕ) (n : ℕ) (s d o : Bool)
    → (completed_operation_decision z za r p v n s d o ≡ ok record_and_exit)
      ↔ Completed z za r p v n s d o
completed_operation_decision-Completed z za r p v n s d o =
    (sound z za r p v n s d o, complete z za r p v n s d o)
