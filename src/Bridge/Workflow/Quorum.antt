-- ===== src/Bridge/Workflow/Quorum.antt =====
-- bridge/src/workflow.rs: what `approve_needed` has seen when it succeeds.
use canton_treasury_dvp.Base.{
  ℕ, ◌≤◌, ◌≡◌, sym, subst, false, ◌||◌, Option, none, some, List, [], ◌∷◌, Bytes, ok, ℤ, leb,
  leb→le, ◌==◌,
}
use canton_treasury_dvp.Escrow.State.{count_ones}
use canton_treasury_dvp.Bridge.Units.{Text}
use canton_treasury_dvp.Bridge.Canonical.{direction_release}
use canton_treasury_dvp.Bridge.Recovery.{OnChainApproval, attesters_needed}
use canton_treasury_dvp.Bridge.Workflow.{
  Services, Options, Run, approval, attester_a, attester_b, recovery, ask, lift, return,
  read_approval, chain_unix_timestamp,
}
use canton_treasury_dvp.Bridge.Workflow.Approve.{
  approve_needed, try_unknown, submit_needed, check_quorum, incomplete_run,
}
use canton_treasury_dvp.Bridge.Workflow.Traced.{on_bind, on_then, ensure-ok, return-ok}

module _ {W : Type 0} (services : Services W) (options : Options) where
  -- The approval that was read last has two signers.
  pub record HasQuorum (account : Bytes) (after : Run W) : Type 0 where
    pub before : Run W
    pub found : OnChainApproval
    pub read : read_approval services account before ≡ (ok (some found), after)
    pub signed : 2 ≤ count_ones 8 found.signer_bitmap

  module _ (whole : options.halt_after_first_approval ≡ false)
      (agreed : options.inject_attester_disagreement ≡ false) where
    quorum-HasQuorum :
        (account : Bytes) (before t after : Run W) (a : Option OnChainApproval)
        → read_approval services account before ≡ (ok a, t)
        → check_quorum services options a t ≡ (ok tt, after)
        → HasQuorum account after
    unfolding check_quorum
    quorum-HasQuorum account before t after none read h =
        let e = ensure-ok (incomplete_run services options) _ t h in cc (rw (whole, agreed) at e.0)
    quorum-HasQuorum account before t after (some a) read h =
        let e =
          ensure-ok (incomplete_run services options || leb 2 (count_ones 8 a.signer_bitmap)) _ t
            h in
        record {
          before = before;
          found = a;
          read =
              subst (λ (v : Run W). read_approval services account before ≡ (ok (some a), v))
                (sym e.1) read;
          signed = leb→le 2 (count_ones 8 a.signer_bitmap) (rw (whole, agreed) at e.0);
        }

    -- `approve_needed` succeeds only when the approval's account, read after its last transaction, has
    -- two signers; unless the run halts after one approval or injects a disagreement.
    pub approve_needed-HasQuorum :
        (direction : ℕ) (operation : Bytes) (expiry : ℤ) (digest : Bytes) (r after : Run W)
        (submitted : List (Text × Text))
        → approve_needed services options direction operation expiry digest r
          ≡ (ok submitted, after)
        → HasQuorum (services.approval_pda operation direction) after
    unfolding approve_needed
    approve_needed-HasQuorum direction operation expiry digest r after submitted ran =
        on_bind (read_approval services (services.approval_pda operation direction)) _ r ran
          λ existing t1 e1 h1. on_bind (chain_unix_timestamp services) _ t1 h1 λ now t2 e2 h2.
            on_bind
              (lift recovery
                (attesters_needed existing digest expiry now (direction == direction_release)))
              _ t2 h2
              λ needed t3 e3 h3.
                on_then (try_unknown services options direction digest) _ t3 h3 λ t4 e4 h4.
                  on_then (ask (services.measure_legacy (approval direction attester_a digest))) _
                    t4 h4
                    λ t5 e5 h5.
                      on_bind
                        (submit_needed services options direction digest
                          ((attester_a, needed.0) ∷ (attester_b, needed.1) ∷ []))
                        _ t5 h5
                        λ pairs t6 e6 h6.
                          on_bind
                            (read_approval services (services.approval_pda operation direction)) _
                            t6 h6
                            λ a t7 e7 h7.
                              on_then (check_quorum services options a) (return pairs) t7 h7
                                λ t8 e8 h8.
                                  subst (HasQuorum (services.approval_pda operation direction))
                                    (return-ok pairs t8 h8).1
                                    (quorum-HasQuorum (services.approval_pda operation direction) t6
                                      t7 t8 a e7 e8)
