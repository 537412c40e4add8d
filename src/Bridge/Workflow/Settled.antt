-- ===== src/Bridge/Workflow/Settled.antt =====
-- bridge/src/workflow.rs: `release_once` on a receipt that is released or cancelled.
use canton_treasury_dvp.Base.{
  ℕ, ◌≤◌, ◌≡◌, refl, sym, subst, Bool, true, false, some, Result, ok, err, arith, ◌⊎◌, inl, inr,
  ◌∙◌, if◌then◌else◌, bytes_eq,
}
use canton_treasury_dvp.Bridge.Units.{Text}
use canton_treasury_dvp.Bridge.Journal.{reached, released, redeemed}
use canton_treasury_dvp.Bridge.Recovery.{should_submit_release}
use canton_treasury_dvp.Bridge.Workflow.{
  Services, Options, Context, Run, Act, Sent, Failure, and_then, ◌>>=◌, ◌>>◌, return, ensure,
  get_journal, read_receipt_status,
}
use canton_treasury_dvp.Bridge.Workflow.Release.{Texts, release_if_needed}
use canton_treasury_dvp.Bridge.Workflow.Payout.{check_release, release_with, release_once}
use canton_treasury_dvp.Bridge.Workflow.Counted.{
  count, Sends, Sends-after, Sends-elim_false, Sends-return, Sends-get, Sends-receipt,
}
use canton_treasury_dvp.Bridge.Workflow.Spent.{is_movement}
use canton_treasury_dvp.Bridge.Workflow.Once.{release_with-Sends}

-- A step that changes nothing.
record IsStill {ℓ} {W : Type 0} {A : Type ℓ} (m : Act W A) : Type 0 where
  same : (r : Run W) → (m r).1 ≡ r

module _ {W : Type 0} where
  and_then-IsStill :
      {A B : Type 0} (r : Run W) (f : A → Act W B) (x : Result Failure A × Run W)
      → x.1 ≡ r
      → ((a : A) → IsStill (f a))
      → (and_then x f).1 ≡ r
  and_then-IsStill r f (ok a, s) e hf = (hf a).same s ∙ e
  and_then-IsStill r f (err e', s) e hf = e

  IsStill-bind :
      {A B : Type 0} {m : Act W A} {f : A → Act W B}
      → IsStill m
      → ((a : A) → IsStill (f a))
      → IsStill (m >>= f)
  unfolding ◌>>=◌
  IsStill-bind {A} {B} {m} {f} hm hf = record {
    same = λ r. and_then-IsStill r f (m r) (hm.same r) hf;
  }

  IsStill-then :
      {B : Type 0} {m : Act W (Unit {0})} {k : Act W B} → IsStill m → IsStill k → IsStill (m >> k)
  unfolding ◌>>◌
  IsStill-then hm hk = IsStill-bind hm λ u. hk

  IsStill-ensure : (b : Bool) (message : Text) → IsStill (ensure {W = W} b message)
  unfolding ensure
  IsStill-ensure b message = record { same = λ r. refl }

  IsStill-get : IsStill (get_journal {W = W})
  unfolding get_journal
  IsStill-get = record { same = λ r. refl }

  IsStill-return : IsStill (return {W = W} (tt {0}))
  unfolding return
  IsStill-return = record { same = λ r. refl }

  IsStill-if :
      (b : Bool) {m k : Act W (Unit {0})} → IsStill m → IsStill k → IsStill (if b then m else k)
  IsStill-if true hm hk = hm
  IsStill-if false hm hk = hk

  -- What follows a step that changes nothing runs where it ran, or not at all.
  count-after :
      (p : Sent → Bool) (r : Run W) (k : Act W (Unit {0})) (x : Result Failure (Unit {0}) × Run W)
      → x.1 ≡ r
      → count p (k r).1.sent ≤ count p r.sent
      → count p (and_then x (λ _. k)).1.sent ≤ count p r.sent
  count-after p r k (ok u, s) e h =
      subst (λ (t : Run W). count p (k t).1.sent ≤ count p r.sent) (sym e) h
  count-after p r k (err e', s) e h =
      subst (λ (t : Run W). count p t.sent ≤ count p r.sent) (sym e) (omega arith)

nothing_to_submit :
    (journal_released : Bool) → should_submit_release journal_released (some 4) ≡ false
unfolding should_submit_release
nothing_to_submit true = refl
nothing_to_submit false = refl

module _ {W : Type 0} (services : Services W) (options : Options) (texts : Texts)
    (context : Context) where
  released-Sends : Sends is_movement 0 (release_if_needed services options texts context (some 4))
  unfolding release_if_needed
  released-Sends = Sends-after Sends-get λ j.
      Sends-elim_false (should_submit_release (reached j released) (some 4)) _
        (nothing_to_submit (reached j released)) (Sends-return false)

  cancelled-Sends : Sends is_movement 0 (release_with services options texts context (some 3))
  unfolding release_with ◌>>◌ ◌>>=◌ ensure
  cancelled-Sends = record { bound = λ r. omega arith }

  final-Sends :
      (status : ℕ)
      → (status ≡ 3) ⊎ (status ≡ 4)
      → Sends is_movement 0 (release_with services options texts context (some status))
  final-Sends status (inl e) =
      subst (λ (s : ℕ). Sends is_movement 0 (release_with services options texts context (some s)))
        (sym e) cancelled-Sends
  final-Sends status (inr e) =
      subst (λ (s : ℕ). Sends is_movement 0 (release_with services options texts context (some s)))
        (sym e) (release_with-Sends services options texts context (some 4) released-Sends)

  check_release-IsStill : IsStill (check_release services options texts context)
  unfolding check_release
  check_release-IsStill = IsStill-bind IsStill-get λ j.
      IsStill-then (IsStill-ensure (bytes_eq context.destination_text j.payout_destination) _) (
        IsStill-if context.include_canton_zama (IsStill-ensure (reached j redeemed) _)
          IsStill-return)

  read_final :
      (r after : Run W) (status : ℕ)
      → read_receipt_status services context.receipt r ≡ (ok (some status), after)
      → (status ≡ 3) ⊎ (status ≡ 4)
      → count is_movement
          ((read_receipt_status services context.receipt
              >>= release_with services options texts context)
            r).1.sent
        ≤ count is_movement r.sent
  unfolding ◌>>=◌
  read_final r after status read final =
      let before =
        rw read at ((Sends-receipt {p = is_movement} services context.receipt).bound r) in
      let run = (final-Sends status final).bound after in rw read (omega (arith, before, run))

  -- A receipt that is read as cancelled or released is not paid out again: `release_once` sends no
  -- movement, whatever the operation's journal says.
  pub release_once_final :
      (r after : Run W) (status : ℕ)
      → read_receipt_status services context.receipt r ≡ (ok (some status), after)
      → (status ≡ 3) ⊎ (status ≡ 4)
      → count is_movement (release_once services options texts context r).1.sent
        ≤ count is_movement r.sent
  unfolding release_once ◌>>◌ ◌>>=◌
  release_once_final r after status read final =
      count-after is_movement r
        (read_receipt_status services context.receipt
          >>= release_with services options texts context)
        (check_release services options texts context r) (check_release-IsStill.same r)
        (read_final r after status read final)
