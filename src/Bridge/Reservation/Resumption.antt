-- ===== src/Bridge/Reservation/Resumption.antt =====
-- bridge/src/reservation.rs: the reads from which each action follows.
use canton_treasury_dvp.Base.{
  ℕ, ◌≡◌, refl, Bool, true, false, Option, none, some, Bytes, Result, ok, err, ◌>>◌, ◌==◌, ==_iff,
  Bool-cases, inl, inr, ◌↔◌, ok-injective, subst, sym,
}
use canton_treasury_dvp.Bridge.Reservation.{
  ReservationAction, ReservationError, submit_reserve, resume_approved, record_completed,
  require_approved, reservation_resume, was_cancelled, unexpected_status, status_failed,
}

-- The status that was read, and the approval that was read with it.
pub data Resumes : Result Bytes ℕ → Option (Result Bytes Bool) → ReservationAction → Type 0 where
  from_empty : (a : Option (Result Bytes Bool)) → Resumes (ok 0) a submit_reserve
  from_reserved : Resumes (ok 1) (some (ok true)) resume_approved
  from_finalized : Resumes (ok 2) (some (ok true)) resume_approved
  from_redeemed : Resumes (ok 4) (some (ok true)) record_completed

approved_then :
    (a : Option (Result Bytes Bool)) (act done : ReservationAction)
    → (require_approved a >> ok done) ≡ ok act
    → (a ≡ some (ok true)) × (done ≡ act)
unfolding require_approved
approved_then none act done h = cc
approved_then (some (err e)) act done h = cc
approved_then (some (ok false)) act done h = cc
approved_then (some (ok true)) act done h = (refl, ok-injective h)

after_approval :
    (n k : ℕ) (a : Option (Result Bytes Bool)) (act done : ReservationAction)
    → (n == k) ≡ true
    → Resumes (ok k) (some (ok true)) done
    → (require_approved a >> ok done) ≡ ok act
    → Resumes (ok n) a act
after_approval n k a act done e r h =
    let parts = approved_then a act done h in
    let number : n ≡ k = (==_iff n k).0 e in
    subst (λ (x : ℕ). Resumes (ok x) a act) (sym number)
      (subst (λ x. Resumes (ok k) x act) (sym parts.0)
        (subst (λ x. Resumes (ok k) (some (ok true)) x) parts.1 r))

err_ne_ok :
    (e : ReservationError) (act : ReservationAction)
    → ◌≡◌ {A = Result ReservationError ReservationAction} (err e) (ok act)
    → ⊥
err_ne_ok e act h = cc

complete :
    (s : Result Bytes ℕ) (a : Option (Result Bytes Bool)) (act : ReservationAction)
    → Resumes s a act
    → reservation_resume s a ≡ ok act
unfolding reservation_resume require_approved
complete _ _ _ (from_empty a) = refl
complete _ _ _ from_reserved = refl
complete _ _ _ from_finalized = refl
complete _ _ _ from_redeemed = refl

sound :
    (n : ℕ) (a : Option (Result Bytes Bool)) (act : ReservationAction)
    → reservation_resume (ok n) a ≡ ok act
    → Resumes (ok n) a act
unfolding reservation_resume
sound n a act h = elim (Bool-cases (n == 0)) [
  | inl e ↦
      subst (λ (x : ℕ). Resumes (ok x) a act) (sym ((==_iff n 0).0 e))
        (subst (Resumes (ok 0) a) (ok-injective (rw e at h)) (from_empty a))
  | inr e0 ↦ elim (Bool-cases (n == 1)) [
    | inl e ↦ after_approval n 1 a act resume_approved e from_reserved (rw (e0, e) at h)
    | inr e1 ↦ elim (Bool-cases (n == 2)) [
      | inl e ↦ after_approval n 2 a act resume_approved e from_finalized (rw (e0, e1, e) at h)
      | inr e2 ↦ elim (Bool-cases (n == 3)) [
        | inl e ↦ absurd (err_ne_ok was_cancelled act (rw (e0, e1, e2, e) at h))
        | inr e3 ↦ elim (Bool-cases (n == 4)) [
          | inl e ↦
              after_approval n 4 a act record_completed e from_redeemed
                (rw (e0, e1, e2, e3, e) at h)
          | inr e4 ↦ absurd (err_ne_ok (unexpected_status n) act (rw (e0, e1, e2, e3, e4) at h))
        ]
      ]
    ]
  ]
]

-- The workflow goes on exactly in these ways: it reserves when nothing is reserved, resumes a
-- reservation that was read as approved, and records one that was redeemed and read as approved.
-- A failed or missing read, a rejection, a cancellation or another status stops it.
pub reservation_resume-Resumes :
    (s : Result Bytes ℕ) (a : Option (Result Bytes Bool)) (act : ReservationAction)
    → (reservation_resume s a ≡ ok act) ↔ Resumes s a act
unfolding reservation_resume
reservation_resume-Resumes (err e) a act =
    (λ h. absurd (err_ne_ok (status_failed e) act h), complete (err e) a act)
reservation_resume-Resumes (ok n) a act = (sound n a act, complete (ok n) a act)
