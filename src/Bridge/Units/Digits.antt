-- ===== src/Bridge/Units/Digits.antt =====
-- Printing and reading digits.
use native.Mathlib.Nat.{pow-succ'}
use canton_treasury_dvp.Base.{
  ℕ, zero, suc, ◌+◌, ◌/◌, ◌%◌, ◌^◌, ◌<◌, ◌≤◌, ◌≡◌, refl, ap, ◌∙◌, Bool, true, false, [], ◌∷◌, ◌++◌,
  arith, length, all, replicate, Bool-cases, inl, inr, ==_iff, ◌==◌, ◌||◌, &&_true, some,
}
use canton_treasury_dvp.Bridge.Units.{
  Text, show_digits, digits_value, is_ascii_digit, is_whitespace, split_once, trim, trim_end,
}

-- Below ten to the fuel all digits are printed, and read back.
pub digits_value-show_digits :
    (fuel n : ℕ) (out : Text)
    → n < 10 ^ fuel
    → digits_value 0 (show_digits fuel n out) ≡ digits_value n out
unfolding show_digits digits_value
digits_value-show_digits zero n out h = ap (λ m. digits_value m out) (omega arith)
digits_value-show_digits (suc fuel) n out h = elim (Bool-cases (n / 10 == 0)) [
  | inl last ↦ rw last (ap (λ m. digits_value m out) (ground (arith, last)))
  | inr more ↦ rw more (
      digits_value-show_digits fuel (n / 10) ((b'0' + n % 10) ∷ out)
        (omega (arith, pow-succ' 10 fuel))
      ∙ ap (λ m. digits_value m out) (omega arith))
]

digit-is_ascii_digit : (n : ℕ) → is_ascii_digit (b'0' + n % 10) ≡ true
unfolding is_ascii_digit
digit-is_ascii_digit n = ground arith

pub all-show_digits :
    (fuel n : ℕ) (out : Text)
    → all is_ascii_digit out ≡ true
    → all is_ascii_digit (show_digits fuel n out) ≡ true
unfolding show_digits
all-show_digits zero n out h = h
all-show_digits (suc fuel) n out h =
    let here : all is_ascii_digit ((b'0' + n % 10) ∷ out) ≡ true = rw (digit-is_ascii_digit n) h in
    elim (Bool-cases (n / 10 == 0)) [
      | inl last ↦ rw last here
      | inr more ↦ rw more (all-show_digits fuel (n / 10) ((b'0' + n % 10) ∷ out) here)
    ]

pub length-show_digits-le :
    (fuel k n : ℕ) (out : Text)
    → n < 10 ^ suc k
    → length (show_digits fuel n out) ≤ suc k + length out
unfolding show_digits
length-show_digits-le zero k n out h = omega arith
length-show_digits-le (suc fuel) zero n out h = ground (arith, h)
length-show_digits-le (suc fuel) (suc k) n out h = elim (Bool-cases (n / 10 == 0)) [
  | inl last ↦ rw last (omega arith)
  | inr more ↦ rw more (
      omega (
        arith,
        length-show_digits-le fuel k (n / 10) ((b'0' + n % 10) ∷ out)
            (omega (arith, pow-succ' 10 (suc k))),
      ))
]

pub length-show_digits-pos :
    (fuel n : ℕ) (out : Text) → 0 < length out → 0 < length (show_digits fuel n out)
unfolding show_digits
length-show_digits-pos zero n out h = h
length-show_digits-pos (suc fuel) n out h = elim (Bool-cases (n / 10 == 0)) [
  | inl last ↦ rw last (omega arith)
  | inr more ↦ rw more (length-show_digits-pos fuel (n / 10) ((b'0' + n % 10) ∷ out) (omega arith))
]

pub all-append :
    (p : ℕ → Bool) (s t : Text) → all p s ≡ true → all p t ≡ true → all p (s ++ t) ≡ true
all-append p [] t hs ht = ht
all-append p (c ∷ s) t hs ht = ground (arith, all-append p s t)

pub all-replicate : (p : ℕ → Bool) (n c : ℕ) → p c ≡ true → all p (replicate n c) ≡ true
all-replicate p zero c h = refl
all-replicate p (suc n) c h = rw h (all-replicate p n c h)

-- Zeros in front change no value.
pub digits_value-zeros :
    (n : ℕ) (s : Text) → digits_value 0 (replicate n b'0' ++ s) ≡ digits_value 0 s
unfolding digits_value
digits_value-zeros zero s = refl
digits_value-zeros (suc n) s = digits_value-zeros n s

pub digits_value-all_zero : (s : Text) → all (λ c. c == b'0') s ≡ true → digits_value 0 s ≡ 0
unfolding digits_value
digits_value-all_zero [] h = refl
digits_value-all_zero (c ∷ s) h =
    let parts = &&_true (c == b'0') _ h in
    rw ((==_iff c b'0').0 parts.0) (digits_value-all_zero s parts.1)

digit_not_dot : (c : ℕ) → is_ascii_digit c ≡ true → (c == b'.') ≡ false
unfolding is_ascii_digit
digit_not_dot c h = ground arith

pub split_once-digits :
    (s t : Text) → all is_ascii_digit s ≡ true → split_once b'.' (s ++ (b'.' ∷ t)) ≡ some (s, t)
unfolding split_once
split_once-digits [] t h = refl
split_once-digits (c ∷ s) t h =
    let parts = &&_true (is_ascii_digit c) _ h in
    rw (digit_not_dot c parts.0, split_once-digits s t parts.1)

-- Digits and the decimal point are no whitespace.
abbrev pub is_plain : ℕ → Bool
is_plain c = is_ascii_digit c || c == b'.'

plain_not_whitespace : (c : ℕ) → is_plain c ≡ true → is_whitespace c ≡ false
unfolding is_ascii_digit is_whitespace
plain_not_whitespace c h = ground arith

trim_end-plain : (s : Text) → all is_plain s ≡ true → trim_end s ≡ s
unfolding trim_end
trim_end-plain [] h = refl
trim_end-plain (c ∷ s) h =
    let parts = &&_true (is_plain c) _ h in
    rw (plain_not_whitespace c parts.0) (ap (◌∷◌ c) (trim_end-plain s parts.1))

pub trim-plain : (s : Text) → all is_plain s ≡ true → trim s ≡ s
unfolding trim
trim-plain [] h = refl
trim-plain (c ∷ s) h =
    rw (plain_not_whitespace c (&&_true (is_plain c) _ h).0) (trim_end-plain (c ∷ s) h)

pub all_digits-plain : (s : Text) → all is_ascii_digit s ≡ true → all is_plain s ≡ true
all_digits-plain [] h = refl
all_digits-plain (c ∷ s) h = ground (arith, all_digits-plain s)
