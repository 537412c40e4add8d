-- ===== src/Bridge/Workflow/Cancel/Deadline.antt =====
-- bridge/src/workflow.rs: the wait for a deadline on the chain's clock.
use canton_treasury_dvp.Base.{ℕ, zero, suc, ◌<◌, ◌≡◌, refl, ap, ◌∙◌, true, false, ok, ℤ, arith}
use canton_treasury_dvp.Bridge.Recovery.{approval_expired_on_chain}
use canton_treasury_dvp.Bridge.Workflow.{
  Services, Run, Act, and_then, chain_unix_timestamp, return, ◌>>=◌,
}
use canton_treasury_dvp.Bridge.Workflow.Cancel.{wait_until_chain_time}

module _ {W : Type 0} (services : Services W) (expiry : ℤ) where
  -- The clock passes the deadline after a number of reads.
  pub data Passes : ℕ → Run W → Type 0 where
    over :
        {r after : Run W} (now : ℤ)
        → chain_unix_timestamp services r ≡ (ok now, after)
        → approval_expired_on_chain expiry now ≡ true
        → Passes zero r
    tick :
        {n : ℕ} {r after : Run W} (now : ℤ)
        → chain_unix_timestamp services r ≡ (ok now, after)
        → approval_expired_on_chain expiry now ≡ false
        → Passes n after
        → Passes (suc n) r

  -- One turn of the loop, after the read.
  turn : ℕ → ℤ → Act W ℤ
  turn fuel now = elim (approval_expired_on_chain expiry now) [
    | true ↦ return now
    | false ↦ wait_until_chain_time services fuel expiry
  ]

  turn-wait :
      (fuel : ℕ) (now : ℤ) (r after : Run W)
      → chain_unix_timestamp services r ≡ (ok now, after)
      → wait_until_chain_time services (suc fuel) expiry r ≡ turn fuel now after
  unfolding wait_until_chain_time ◌>>=◌ turn
  turn-wait fuel now r after read = ap (λ x. and_then x (turn fuel)) read

  turn-true :
      (fuel : ℕ) (now : ℤ) (after : Run W)
      → approval_expired_on_chain expiry now ≡ true
      → turn fuel now after ≡ (ok now, after)
  unfolding turn return
  turn-true fuel now after e = rw (e, turn) refl

  turn-false :
      (fuel : ℕ) (now : ℤ) (after : Run W)
      → approval_expired_on_chain expiry now ≡ false
      → turn fuel now after ≡ wait_until_chain_time services fuel expiry after
  unfolding turn
  turn-false fuel now after e = rw (e, turn) refl

  -- The wait returns a time that has passed the deadline, if the clock passes it after fewer reads than
  -- the fuel.
  pub wait_until_chain_time_returns :
      (fuel : ℕ) {n : ℕ} {r : Run W}
      → Passes n r
      → n < fuel
      → (now : ℤ) × (after : Run W) × (wait_until_chain_time services fuel expiry r
          ≡ (ok now, after))
        × (approval_expired_on_chain expiry now ≡ true)
  wait_until_chain_time_returns zero passes enough = absurd (omega (arith, enough))
  wait_until_chain_time_returns (suc fuel) (over {r} {after} now read expired) enough =
      (now, after, turn-wait fuel now r after read ∙ turn-true fuel now after expired, expired)
  wait_until_chain_time_returns (suc fuel) (tick {n} {r} {after} now read pending rest) enough =
      let later = wait_until_chain_time_returns fuel rest (omega (arith, enough)) in
      (
        later.0,
        later.1,
        turn-wait fuel now r after read ∙ turn-false fuel now after pending ∙ later.2,
        later.3,
      )
