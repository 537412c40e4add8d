-- ===== src/Bridge/Ledger/Steps.antt =====
-- bridge/src/canton_history.rs: the checks that its functions are chains of, and how a chain that
-- succeeds is read.
use canton_treasury_dvp.Base.{
  ◌≡◌, refl, ap, Bool, true, false, ◌&&◌, ◌||◌, Option, none, some, [], ◌∷◌, Result, ok, err, ◌>>=◌,
  ◌>>◌, require, map_err, bytes_eq, bytes_eq_iff, codes, ◌==◌, if◌then◌else◌, on_require, on_some,
}
use canton_treasury_dvp.Bridge.Units.{Text, is_empty}
use canton_treasury_dvp.Bridge.Ledger.{
  LedgerValue, field_text, field_numeric, non_empty, missing, require_text, is_text, amounts_match,
  require_amount, require_numeric,
}

unfoldable pub starts_with : Text → Text → Bool
starts_with t [] = true
starts_with [] (c ∷ prefix) = false
starts_with (b ∷ t) (c ∷ prefix) = b == c && starts_with t prefix

unfoldable pub contains : Text → Text → Bool
unfolding starts_with
contains [] part = is_empty part
contains (b ∷ t) part = starts_with (b ∷ t) part || contains t part

-- `map_err(|err| if err.to_string().contains("missing") { .. } else { err })`
unfoldable pub retitle {ℓ} : {A : Type ℓ} → Text → Result Text A → Result Text A
retitle title r = map_err (λ e. if contains e (codes "missing") then title else e) r

-- `if left != right { return Err(..) }`
abbrev pub same_text : Text → Text → Text → Result Text (Unit {0})
same_text left right message = require (bytes_eq left right) message

-- `is_some_and`
abbrev pub is_some_and : Option LedgerValue → (LedgerValue → Bool) → Bool
is_some_and none test = false
is_some_and (some value) test = test value

pub non_empty-some : (o : Option Text) {t : Text} → non_empty o ≡ some t → o ≡ some t
non_empty-some none h = h
non_empty-some (some []) h = cc
non_empty-some (some (c ∷ s)) h = h

module _ {ℓ κ} {B : Type ℓ} {P : Type κ} where
  pub on_same :
      (left right message : Text) (k : Result Text B) {b : B}
      → (same_text left right message >> k) ≡ ok b
      → (left ≡ right → k ≡ ok b → P)
      → P
  on_same left right message k h p =
      on_require (bytes_eq left right) message k h λ e rest. p ((bytes_eq_iff left right).0 e) rest

  pub on_text :
      (value : LedgerValue) (name label : Text) (f : Text → Result Text B) {b : B}
      → (require_text value name label >>= f) ≡ ok b
      → ((t : Text) → field_text (some value) name ≡ some t → f t ≡ ok b → P)
      → P
  unfolding require_text
  on_text value name label f h p =
      on_some (non_empty (field_text (some value) name)) (missing label) f h
        λ t e rest. p t (non_empty-some (field_text (some value) name) e) rest

  pub on_numeric :
      (value : LedgerValue) (name label : Text) (f : Text → Result Text B) {b : B}
      → (require_numeric value name label >>= f) ≡ ok b
      → ((t : Text) → field_numeric (some value) name ≡ some t → f t ≡ ok b → P)
      → P
  unfolding require_numeric
  on_numeric value name label f h p =
      on_some (non_empty (field_numeric (some value) name)) (missing label) f h
        λ t e rest. p t (non_empty-some (field_numeric (some value) name) e) rest

  pub on_amount :
      (actual expected label : Text) (k : Result Text B) {b : B}
      → (require_amount actual expected label >> k) ≡ ok b
      → (amounts_match actual expected ≡ true → k ≡ ok b → P)
      → P
  unfolding require_amount
  on_amount actual expected label k h p = on_require (amounts_match actual expected) _ k h p

  pub on_retitled {μ} :
      {A : Type μ} (title : Text) (r : Result Text A) (f : A → Result Text B) {b : B}
      → (retitle title r >>= f) ≡ ok b
      → ((a : A) → r ≡ ok a → f a ≡ ok b → P)
      → P
  unfolding retitle
  on_retitled title (ok a) f h p = p a refl h
  on_retitled title (err e) f h p = cc

pub is_text-some : (o : Option Text) (t : Text) → is_text o t ≡ true → o ≡ some t
is_text-some none t h = cc
is_text-some (some s) t h = ap some ((bytes_eq_iff s t).0 h)
