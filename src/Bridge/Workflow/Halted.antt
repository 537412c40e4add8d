-- ===== src/Bridge/Workflow/Halted.antt =====
-- bridge/src/workflow.rs: what `halt` leaves in the journal in memory and in the saved one.
use canton_treasury_dvp.Base.{
  ◌≡◌, ◌∙◌, refl, sym, subst, ap, Bool, false, ◌||◌, Option, some, leb, Result, ok, err, Bool-cases,
  inl, inr,
}
use canton_treasury_dvp.Bridge.Units.{Text}
use canton_treasury_dvp.Bridge.Journal.{Step, Journal, rank, reached, is_step}
use canton_treasury_dvp.Bridge.Journal.Progress.{reached-advanced, reached-kept}
use canton_treasury_dvp.Bridge.Workflow.{
  Services, Options, Run, Failure, ◌>>=◌, ◌>>◌, return, ask, save, get_journal, set_journal,
  stop_here, with_world, and_then,
}

abbrev advanced : Journal → Step → Journal
advanced j step = record j { completed = some step }

module _ {W : Type 0} where
  -- What follows a request keeps the journal.
  then_journal :
      {A B : Type 0} (r : Run W) (b : B) (x : Result Text A × W)
      → (and_then (with_world r x) (λ _. return b)).1.journal ≡ r.journal
  unfolding return
  then_journal r b (ok a, w) = refl
  then_journal r b (err e, w) = refl

  then_world :
      {B : Type 0} (r : Run W) (b c : B) (x : Result Text (Unit {0}) × W) {after : Run W}
      → and_then (with_world r x) (λ _. return b) ≡ (ok c, after)
      → (x ≡ (ok tt, after.world)) × (after.journal ≡ r.journal)
  unfolding return
  then_world r b c (ok tt, w) h =
      let e = ap (λ v. v.1) h in
      (ap (λ (t : Run W). (ok tt, t.world)) e, sym (ap (λ (t : Run W). t.journal) e))
  then_world r b c (err e, w) h = absurd (err_ne_ok (ap (λ v. v.0) h))
    where
      err_ne_ok : {A : Type 0} {a : A} {e : Failure} → ◌≡◌ {A = Result Failure A} (err e) (ok a) → ⊥
      err_ne_ok h = cc

module _ {W : Type 0} (services : Services W) (options : Options) where
  -- Halting at a step, whether it is to stop there, and whether or not the journal could be saved,
  -- leaves exactly these steps reached in the journal in memory: those that were, the step, and all
  -- before it.
  pub stop_here-reached :
      (step s : Step) (r : Run W)
      → reached (stop_here services options step r).1.journal s
        ≡ (reached r.journal s || leb (rank s) (rank step))
  unfolding stop_here ◌>>=◌ ◌>>◌ get_journal set_journal return save ask
  stop_here-reached step s r = elim (Bool-cases (reached r.journal step)) [
    | inl already ↦ rw already (reached-kept r.journal step s already)
    | inr new ↦ elim (Bool-cases options.omit_journal_save) [
      | inl omitted ↦
          rw (new, omitted) (reached-advanced r.journal (advanced r.journal step) step s refl new)
      | inr saving ↦
          rw (new, saving)
            (reached-advanced r.journal
              (and_then
                (with_world (record r { journal = advanced r.journal step })
                  (services.save_journal (advanced r.journal step) r.world))
                (λ _. return (is_step step options.stop_after))).1.journal
              step s
              (ap (λ (j : Journal). j.completed)
                (then_journal (record r { journal = advanced r.journal step })
                  (is_step step options.stop_after)
                  (services.save_journal (advanced r.journal step) r.world)))
              new)
    ]
  ]

  -- Unless saving is left out, a halt that succeeds leaves the saved journal equal to the one in
  -- memory, if they were equal before; where a save that succeeds stores the journal it is given.
  pub stop_here-saved :
      (stored : W → Option Journal)
      → ((j : Journal) (w v : W) → services.save_journal j w ≡ (ok tt, v) → stored v ≡ some j)
      → (step : Step) (stop : Bool) (r after : Run W) → options.omit_journal_save ≡ false
      → stored r.world ≡ some r.journal
      → stop_here services options step r ≡ (ok stop, after)
      → stored after.world ≡ some after.journal
  unfolding stop_here ◌>>=◌ ◌>>◌ get_journal set_journal return save ask
  stop_here-saved stored saves step stop r after saving agreed ran =
      elim (Bool-cases (reached r.journal step)) [
        | inl already ↦
            subst (λ (t : Run W). stored t.world ≡ some t.journal)
              (ap (λ v. v.1) (rw already at ran)) agreed
        | inr new ↦
            let done =
              then_world (record r { journal = advanced r.journal step })
                (is_step step options.stop_after) stop
                (services.save_journal (advanced r.journal step) r.world)
                (rw (new, saving) at ran) in
            saves (advanced r.journal step) r.world after.world done.0 ∙ ap some (sym done.1)
      ]
