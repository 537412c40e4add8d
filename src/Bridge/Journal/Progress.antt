-- ===== src/Bridge/Journal/Progress.antt =====
-- bridge/src/journal.rs: how the recorded steps change.
use canton_treasury_dvp.Base.{
  ◌≤◌, ◌≡◌, refl, Bool, ◌||◌, true, false, Option, none, some, ltb, leb, arith, Bool-cases, inl,
  inr, ap, sym, ◌∙◌,
}
use canton_treasury_dvp.Bridge.Journal.{Step, Journal, rank, reached, max_completed}

-- A step is reached in a journal whose last completed step is this one.
abbrev reached_in : Option Step → Step → Bool
reached_in none s = false
reached_in (some done) s = leb (rank s) (rank done)

reached-completed : (j : Journal) (s : Step) → reached j s ≡ reached_in j.completed s
unfolding reached
reached-completed j s =
    elim j.completed
      as (λ o. elim o [ none ↦ false | some done ↦ leb (rank s) (rank done) ] ≡ reached_in o s) [
        | none ↦ refl
        | some done ↦ refl
      ]

advanced :
    (o : Option Step) (step s : Step)
    → reached_in o step ≡ false
    → reached_in (some step) s ≡ (reached_in o s || leb (rank s) (rank step))
advanced none step s h = refl
advanced (some done) step s h = ground (arith, h)

kept :
    (o : Option Step) (step s : Step)
    → reached_in o step ≡ true
    → reached_in o s ≡ (reached_in o s || leb (rank s) (rank step))
kept none step s h = cc
kept (some done) step s h = ground (arith, h)

-- A step that is completed now, if it was not reached before, adds itself and all before it to those
-- that were reached.
pub reached-advanced :
    (j k : Journal) (step s : Step)
    → k.completed ≡ some step
    → reached j step ≡ false
    → reached k s ≡ (reached j s || leb (rank s) (rank step))
reached-advanced j k step s e h =
    reached-completed k s
    ∙ ap (λ o. reached_in o s) e
    ∙ advanced j.completed step s (sym (reached-completed j step) ∙ h)
    ∙ ap (λ b. b || leb (rank s) (rank step)) (sym (reached-completed j s))

-- A step that was reached before adds nothing.
pub reached-kept :
    (j : Journal) (step s : Step)
    → reached j step ≡ true
    → reached j s ≡ (reached j s || leb (rank s) (rank step))
reached-kept j step s h =
    reached-completed j s
    ∙ kept j.completed step s (sym (reached-completed j step) ∙ h)
    ∙ ap (λ b. b || leb (rank s) (rank step)) (sym (reached-completed j s))

-- The later of a step and the last completed one is at or after both.
max_completed-reached :
    (step done : Step)
    → (rank step ≤ rank (max_completed step (some done)))
      × (rank done ≤ rank (max_completed step (some done)))
unfolding max_completed
max_completed-reached step done = elim (Bool-cases (ltb (rank step) (rank done))) [
  | inl later ↦ rw later (ground (arith, later), ground arith)
  | inr earlier ↦ rw earlier (ground arith, ground (arith, earlier))
]
