-- ===== src/Bridge/Workflow/Spent.antt =====
-- bridge/src/workflow.rs: the movements of the vault's tokens that `lock_once`, `release_once` and
-- `cancel_locked_operation` send.
use canton_treasury_dvp.Base.{
  leb, ℕ, ◌≡◌, refl, Bool, true, false, ◌||◌, Option, none, some, List, [], ◌∷◌, Bytes, ℤ, ◌==◌,
}
use canton_treasury_dvp.Escrow.State.{count_ones}
use canton_treasury_dvp.Bridge.Units.{Text}
use canton_treasury_dvp.Bridge.Canonical.{direction_release}
use canton_treasury_dvp.Bridge.Recovery.{OnChainApproval, attesters_needed}
use canton_treasury_dvp.Bridge.Workflow.{
  Services, Options, Sent, Attester, Failure, zama_reserve, zama_cancel, zama_redeem, approval,
  movement, apply_pending, send,
}
use canton_treasury_dvp.Bridge.Workflow.Approve.{
  is_err, incomplete_run, refused_transaction, submit_approval, submit_needed, check_quorum,
  try_unknown, approve_needed, flipped,
}
use canton_treasury_dvp.Bridge.Workflow.Counted.{
  Sends, Sends-after, Sends-then, Sends-return, Sends-ask, Sends-attempt, Sends-lift, Sends-other,
  Sends-try, Sends-elim, Sends-result, Sends-ensure, Sends-clock, Sends-approval,
}

abbrev pub is_movement : Sent → Bool
is_movement (zama_reserve hex amount) = false
is_movement (zama_cancel hex) = false
is_movement (zama_redeem hex) = false
is_movement (approval direction attester digest) = false
is_movement (movement m) = true
is_movement (apply_pending account amount pending) = false

module _ {W : Type 0} (services : Services W) (options : Options) where
  refused_transaction-Sends :
      (s : Sent) (message : Text)
      → is_movement s ≡ false
      → Sends is_movement 0 (refused_transaction services options s message)
  unfolding refused_transaction
  refused_transaction-Sends s message other =
      Sends-after (Sends-try s (services.submit s) other) λ submitted.
        Sends-result submitted (λ e. Sends-return tt)
          λ id. Sends-after (Sends-attempt (services.wait_confirmed id)) λ confirmed.
            Sends-result confirmed (λ e. Sends-return tt)
              λ sig.
                Sends-after (Sends-attempt (services.confirm_on_chain sig))
                  λ landed. Sends-ensure (is_err landed) message

  submit_approval-Sends :
      (direction : ℕ) (attester : Attester) (digest : Bytes)
      → Sends is_movement 0 (submit_approval services options direction attester digest)
  unfolding submit_approval send
  submit_approval-Sends direction attester digest =
      Sends-after
        (Sends-other (approval direction attester digest)
          (services.submit (approval direction attester digest)) refl)
        λ id.
          Sends-after (Sends-ask (services.wait_confirmed id))
            λ sig. Sends-then (Sends-ask (services.confirm_on_chain sig)) (Sends-return (id, sig))

  submit_needed-Sends :
      (direction : ℕ) (digest : Bytes) (attesters : List (Attester × Bool))
      → Sends is_movement 0 (submit_needed services options direction digest attesters)
  unfolding submit_needed
  submit_needed-Sends direction digest [] = Sends-return []
  submit_needed-Sends direction digest ((attester, false) ∷ rest) =
      submit_needed-Sends direction digest rest
  submit_needed-Sends direction digest ((attester, true) ∷ rest) =
      Sends-elim options.inject_attester_disagreement
        (Sends-then
          (refused_transaction-Sends (approval direction attester (flipped digest)) _ refl)
          (Sends-return []))
        (Sends-after (submit_approval-Sends direction attester digest) λ pair.
          Sends-elim options.halt_after_first_approval (Sends-return (pair ∷ [])) (
            Sends-after (submit_needed-Sends direction digest rest)
              λ more. Sends-return (pair ∷ more)))

  check_quorum-Sends :
      (after : Option OnChainApproval) → Sends is_movement 0 (check_quorum services options after)
  unfolding check_quorum
  check_quorum-Sends none = Sends-ensure (incomplete_run services options) _
  check_quorum-Sends (some after) =
      Sends-ensure (incomplete_run services options || leb 2 (count_ones 8 after.signer_bitmap)) _

  try_unknown-Sends :
      (direction : ℕ) (digest : Bytes)
      → Sends is_movement 0 (try_unknown services options direction digest)
  unfolding try_unknown
  try_unknown-Sends direction digest =
      Sends-elim options.inject_unknown_attester
        (refused_transaction-Sends (approval direction Attester.unknown_attester digest) _ refl)
        (Sends-return tt)

  pub approve_needed-Sends :
      (direction : ℕ) (operation : Bytes) (expiry : ℤ) (digest : Bytes)
      → Sends is_movement 0 (approve_needed services options direction operation expiry digest)
  unfolding approve_needed
  approve_needed-Sends direction operation expiry digest =
      Sends-after (Sends-approval services (services.approval_pda operation direction)) λ existing.
        Sends-after (Sends-clock services) λ now.
          Sends-after
            (Sends-lift Failure.recovery
              (attesters_needed existing digest expiry now (direction == direction_release)))
            λ needed. Sends-then (try_unknown-Sends direction digest) (
              Sends-then
                (Sends-ask
                  (services.measure_legacy (approval direction Attester.attester_a digest)))
                (Sends-after
                  (submit_needed-Sends direction digest
                    ((Attester.attester_a, needed.0) ∷ (Attester.attester_b, needed.1) ∷ []))
                  λ submitted.
                    Sends-after
                      (Sends-approval services (services.approval_pda operation direction))
                      λ after. Sends-then (check_quorum-Sends after) (Sends-return submitted)))
