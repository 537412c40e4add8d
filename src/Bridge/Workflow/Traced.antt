-- ===== src/Bridge/Workflow/Traced.antt =====
-- bridge/src/workflow.rs: a step that succeeds, taken apart.
use canton_treasury_dvp.Base.{◌≡◌, refl, ap, sym, Bool, true, false, Result, ok, err, ok-injective}
use canton_treasury_dvp.Bridge.Units.{Text}
use canton_treasury_dvp.Bridge.Journal.{Journal}
use canton_treasury_dvp.Bridge.Workflow.{
  Run, Act, Failure, and_then, ◌>>=◌, ◌>>◌, return, ensure, lift, get_journal,
}

module _ {W : Type 0} {B : Type 0} {P : Type 0} where
  and_then_ok :
      {A : Type 0} (x : Result Failure A × Run W) (f : A → Act W B) {b : B} {s : Run W}
      → and_then x f ≡ (ok b, s)
      → ((a : A) (t : Run W) → x ≡ (ok a, t) → f a t ≡ (ok b, s) → P)
      → P
  and_then_ok (ok a, t) f h k = k a t refl h
  and_then_ok (err e, t) f h k = absurd (err_ne_ok (ap (λ v. v.0) h))
    where
      err_ne_ok : {b : B} → ◌≡◌ {A = Result Failure B} (err e) (ok b) → ⊥
      err_ne_ok h = cc

  pub on_bind :
      {A : Type 0} (m : Act W A) (f : A → Act W B) (r : Run W) {b : B} {s : Run W}
      → (m >>= f) r ≡ (ok b, s)
      → ((a : A) (t : Run W) → m r ≡ (ok a, t) → f a t ≡ (ok b, s) → P)
      → P
  unfolding ◌>>=◌
  on_bind m f r h k = and_then_ok (m r) f h k

  pub on_then :
      (m : Act W (Unit {0})) (k : Act W B) (r : Run W) {b : B} {s : Run W}
      → (m >> k) r ≡ (ok b, s)
      → ((t : Run W) → m r ≡ (ok tt, t) → k t ≡ (ok b, s) → P)
      → P
  unfolding ◌>>◌
  on_then m k r h p = on_bind m (λ _. k) r h λ u t e rest. p t e rest

pub ensure-ok :
    {W : Type 0} (b : Bool) (message : Text) (r : Run W) {t : Run W}
    → ensure b message r ≡ (ok tt, t)
    → (b ≡ true) × (t ≡ r)
unfolding ensure
ensure-ok true message r h = (refl, sym (ap (λ v. v.1) h))
ensure-ok false message r h = absurd (err_ne_ok (ap (λ v. v.0) h))
  where
    err_ne_ok : ◌≡◌ {A = Result Failure (Unit {0})} (err (Failure.refused message)) (ok tt) → ⊥
    err_ne_ok h = cc

pub return-ok :
    {W : Type 0} {A : Type 0} (a : A) (r : Run W) {b : A} {t : Run W}
    → return a r ≡ (ok b, t)
    → (a ≡ b) × (r ≡ t)
unfolding return
return-ok a r h = (ok-injective (ap (λ v. v.0) h), ap (λ v. v.1) h)

pub get_journal-ok :
    {W : Type 0} (r : Run W) {j : Journal} {t : Run W}
    → get_journal r ≡ (ok j, t)
    → (r.journal ≡ j) × (r ≡ t)
unfolding get_journal return
get_journal-ok r h = return-ok r.journal r h

ok_ne_err : {A : Type 0} {a : A} {e : Failure} → ◌≡◌ {A = Result Failure A} (err e) (ok a) → ⊥
ok_ne_err h = cc

pub lift-ok :
    {W : Type 0} {E : Type 0} {A : Type 0} (f : E → Failure) (x : Result E A) (r : Run W) {a : A}
    {t : Run W}
    → lift f x r ≡ (ok a, t)
    → (x ≡ ok a) × (t ≡ r)
unfolding lift
lift-ok f (ok b) r h = (ap ok (ok-injective (ap (λ v. v.0) h)), sym (ap (λ v. v.1) h))
lift-ok f (err e) r h = absurd (ok_ne_err (ap (λ v. v.0) h))
