-- ===== src/Base/Outcome.antt =====
-- Errors as values. `Result E A` is Rust's `Result<A, E>`; `?` is a bind.
use mathlib.Core.Bool.{Bool, true, false}
use mathlib.Core.Logic.{◌⊎◌, inl, inr}
use mathlib.Core.Option.{Option, none, some}
use mathlib.Core.Path.{◌≡◌, refl}

pub data Result {ℓ} (E : Type 0) (A : Type ℓ) : Type ℓ where
  ok : A → Result E A
  err : E → Result E A

infixl 5 ◌>>=◌ ◌>>◌
abbrev pub ◌>>=◌ {ℓ κ} :
    {E : Type 0} {A : Type ℓ} {B : Type κ} → Result E A → (A → Result E B) → Result E B
ok a >>= f = f a
err e >>= f = err e

abbrev pub ◌>>◌ {ℓ} : {E : Type 0} {B : Type ℓ} → Result E (Unit {0}) → Result E B → Result E B
m >> k = m >>= λ _. k

-- The error that a failure is reported as: `map_err`.
abbrev pub map_err {ℓ} : {E F : Type 0} {A : Type ℓ} → (E → F) → Result E A → Result F A
map_err f (ok a) = ok a
map_err f (err e) = err (f e)

module _ {E : Type 0} where
  -- `require!(test, error)`
  abbrev pub require : Bool → E → Result E (Unit {0})
  require true e = ok tt
  require false e = err e

  -- `option.ok_or(error)`
  abbrev pub ok_or {ℓ} : {A : Type ℓ} → Option A → E → Result E A
  ok_or none e = err e
  ok_or (some a) e = ok a

  ok_ne_err {ℓ} : {A : Type ℓ} (a : A) (e : E) → ◌≡◌ {A = Result E A} (err e) (ok a) → ⊥
  ok_ne_err a e h = cc

  abbrev pub is_ok {ℓ} : {A : Type ℓ} → Result E A → Bool
  is_ok (ok a) = true
  is_ok (err e) = false

  -- A bind that succeeds: both parts have, and the proof goes on from the first result.
  pub on_ok {ℓ κ μ} :
      {A : Type ℓ} {B : Type κ} {P : Type μ} (m : Result E A) (f : A → Result E B) {b : B}
      → (m >>= f) ≡ ok b
      → ((a : A) → m ≡ ok a → f a ≡ ok b → P)
      → P
  on_ok (ok a) f h k = k a refl h
  on_ok (err e) f h k = absurd (ok_ne_err _ e h)

  pub on_require {ℓ μ} :
      {B : Type ℓ} {P : Type μ} (c : Bool) (e : E) (k : Result E B) {b : B}
      → (require c e >> k) ≡ ok b
      → (c ≡ true → k ≡ ok b → P)
      → P
  on_require true e k h p = p refl h
  on_require false e k h p = absurd (ok_ne_err _ e h)

  pub on_some {ℓ κ μ} :
      {A : Type ℓ} {B : Type κ} {P : Type μ} (o : Option A) (e : E) (f : A → Result E B) {b : B}
      → (ok_or o e >>= f) ≡ ok b
      → ((a : A) → o ≡ some a → f a ≡ ok b → P)
      → P
  on_some none e f h k = absurd (ok_ne_err _ e h)
  on_some (some a) e f h k = k a refl h

  pub ok-injective {ℓ} : {A : Type ℓ} {a b : A} → ◌≡◌ {A = Result E A} (ok a) (ok b) → a ≡ b
  ok-injective h = cc

  pub Result-cases {ℓ} :
      {A : Type ℓ} (m : Result E A) → ((a : A) × (m ≡ ok a)) ⊎ ((e : E) × (m ≡ err e))
  Result-cases (ok a) = inl (a, refl)
  Result-cases (err e) = inr (e, refl)

  pub ok_or-some {ℓ} : {A : Type ℓ} (o : Option A) (e : E) {a : A} → ok_or o e ≡ ok a → o ≡ some a
  ok_or-some none e h = cc
  ok_or-some (some b) e h = cc
