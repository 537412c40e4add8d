-- ===== src/Examples/Halting.antt =====
-- The theorems on `halt`, on services whose world is the saved journal.
use canton_treasury_dvp.Base.{
  ◌≡◌, refl, sym, ap, true, false, ◌||◌, Option, none, some, [], leb, ok, err, codes,
}
use canton_treasury_dvp.Bridge.Journal.{Journal, settled, released, rank, reached}
use canton_treasury_dvp.Bridge.Workflow.{
  Services, Run, ◌>>=◌, ◌>>◌, return, ask, save, get_journal, set_journal, stop_here,
}
use canton_treasury_dvp.Bridge.Workflow.Halted.{stop_here-reached, stop_here-saved}
use canton_treasury_dvp.Examples.Steps.{clock_bytes, options}
use canton_treasury_dvp.Examples.Workflow.{journal}

abbrev services : Services (Option Journal)
services = record {
  status = λ hex w. (ok 0, w);
  approved = λ hex w. (ok true, w);
  submit = λ s w. (ok (codes "id"), w);
  zama_call =
      λ s w. (ok (record { approved = true; tx_hash = some (codes "tx"); gas_used = none }), w);
  get_account = λ key w. (ok none, w);
  clock_account = λ w. (ok (clock_bytes 0), w);
  pending_credit_counter = λ account w. (ok 0, w);
  decrypt_available = λ account w. (ok 5, w);
  encrypt = λ account n w. (ok [], w);
  has_pending_encrypted_credit = λ account w. (ok false, w);
  generate_transfer_proofs = λ from to amount w. (err (codes "no prover"), w);
  wait_confirmed = λ id w. (ok (codes "signature"), w);
  confirm_on_chain = λ sig w. (ok tt, w);
  measure_legacy = λ s w. (ok tt, w);
  save_journal = λ j w. (ok tt, some j);
  save_secrets = λ w. (ok tt, w);
  instruction_data = λ m. m.transfer_data;
  approval_pda = λ operation direction. codes "approval";
  sha256 = λ bytes. bytes;
}

abbrev run : Run (Option Journal)
run = record { world = some journal; journal = journal; sent = [] }

stop_here-reached_example :
    reached (stop_here services options settled run).1.journal released
    ≡ (reached journal released || leb (rank released) (rank settled))
stop_here-reached_example = stop_here-reached services options settled released run

saved_as_given :
    (j : Journal) (w v : Option Journal) → services.save_journal j w ≡ (ok tt, v) → v ≡ some j
saved_as_given j w v h = sym (ap (λ x. x.1) h)

settles :
    stop_here services options settled run ≡ (ok false, (stop_here services options settled run).1)
unfolding stop_here save reached rank ◌>>=◌ ◌>>◌ return ask get_journal set_journal
settles = refl

stop_here-saved_example :
    (stop_here services options settled run).1.world
    ≡ some (stop_here services options settled run).1.journal
stop_here-saved_example =
    stop_here-saved services options (λ w. w) saved_as_given settled false run
      (stop_here services options settled run).1 refl refl settles
