-- ===== src/Bridge/Workflow/Approve.antt =====
-- bridge/src/workflow.rs: the attesters' approvals that are still needed.
use canton_treasury_dvp.Base.{
  ℕ, ◌-◌, Bool, true, false, ◌||◌, Option, none, some, List, [], ◌∷◌, Bytes, Result, ok, err, ℤ,
  codes, ◌==◌, leb,
}
use canton_treasury_dvp.Escrow.State.{count_ones}
use canton_treasury_dvp.Bridge.Units.{Text}
use canton_treasury_dvp.Bridge.Canonical.{direction_release}
use canton_treasury_dvp.Bridge.Recovery.{OnChainApproval, attesters_needed}
use canton_treasury_dvp.Bridge.Workflow.{
  Services, Options, Act, Sent, Attester, approval, attester_a, attester_b, unknown_attester,
  recovery, ◌>>=◌, ◌>>◌, return, ask, attempt, attempt_request, ensure, lift, send,
  chain_unix_timestamp, read_approval,
}

abbrev pub is_err : Result Text (Unit {0}) → Bool
is_err (ok u) = false
is_err (err e) = true

-- `bad_digest[0] ^= 0xff`
abbrev pub flipped : Bytes → Bytes
flipped [] = []
flipped (b ∷ digest) = (255 - b) ∷ digest

module _ {W : Type 0} (services : Services W) (options : Options) where
  -- A transaction that must not be accepted.
  unfoldable pub refused_transaction : Sent → Text → Act W (Unit {0})
  unfolding ◌>>=◌ return attempt attempt_request ensure
  refused_transaction s message = attempt_request s (services.submit s) >>= λ submitted.
      elim submitted [
        | err e ↦ return tt
        | ok id ↦ attempt (services.wait_confirmed id) >>= λ confirmed. elim confirmed [
          | err e ↦ return tt
          | ok sig ↦
              attempt (services.confirm_on_chain sig) >>= λ landed. ensure (is_err landed) message
        ]
      ]

  unfoldable pub submit_approval : ℕ → Attester → Bytes → Act W (Text × Text)
  unfolding ◌>>=◌ ◌>>◌ return ask send
  submit_approval direction attester digest = do
    id ← send services (approval direction attester digest)
    sig ← ask (services.wait_confirmed id)
    ask (services.confirm_on_chain sig)
    return (id, sig)

  -- The loop over the attesters, with whether each is needed.
  unfoldable pub submit_needed : ℕ → Bytes → List (Attester × Bool) → Act W (List (Text × Text))
  unfolding ◌>>=◌ ◌>>◌ return refused_transaction submit_approval
  submit_needed direction digest [] = return []
  submit_needed direction digest ((attester, false) ∷ rest) = submit_needed direction digest rest
  submit_needed direction digest ((attester, true) ∷ rest) =
      elim options.inject_attester_disagreement [
        | true ↦
            refused_transaction (approval direction attester (flipped digest))
              (codes "conflicting attestation was accepted")
            >> return []
        | false ↦ submit_approval direction attester digest >>= λ pair.
            elim options.halt_after_first_approval [
              | true ↦ return (pair ∷ [])
              | false ↦ submit_needed direction digest rest >>= λ more. return (pair ∷ more)
            ]
      ]

  -- Whether the check of the quorum is left out.
  abbrev pub incomplete_run : Bool
  incomplete_run = options.halt_after_first_approval || options.inject_attester_disagreement

  unfoldable pub check_quorum : Option OnChainApproval → Act W (Unit {0})
  unfolding ensure
  check_quorum none = ensure incomplete_run (codes "approval account is missing after submit")
  check_quorum (some after) =
      ensure (incomplete_run || leb 2 (count_ones 8 after.signer_bitmap))
        (codes "2-of-3 approval is missing")

  unfoldable pub try_unknown : ℕ → Bytes → Act W (Unit {0})
  unfolding return refused_transaction
  try_unknown direction digest = elim options.inject_unknown_attester [
    | true ↦
        refused_transaction (approval direction unknown_attester digest)
          (codes "unknown attester was accepted")
    | false ↦ return tt
  ]

  unfoldable pub approve_needed : ℕ → Bytes → ℤ → Bytes → Act W (List (Text × Text))
  unfolding ◌>>=◌ ◌>>◌ return ask lift read_approval chain_unix_timestamp attesters_needed
      try_unknown submit_needed check_quorum
  approve_needed direction operation expiry digest = do
    existing ← read_approval services (services.approval_pda operation direction)
    chain_now ← chain_unix_timestamp services
    needed ←
        lift recovery
          (attesters_needed existing digest expiry chain_now (direction == direction_release))
    try_unknown direction digest
    ask (services.measure_legacy (approval direction attester_a digest))
    submitted ←
        submit_needed direction digest ((attester_a, needed.0) ∷ (attester_b, needed.1) ∷ [])
    after ← read_approval services (services.approval_pda operation direction)
    check_quorum after
    return submitted
