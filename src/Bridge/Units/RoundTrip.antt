-- ===== src/Bridge/Units/RoundTrip.antt =====
-- bridge/src/units.rs: amounts that are printed and read again.
use mathlib.Core.List.{append-nil}
use native.Mathlib.Nat.{pow-le-pow_right, one-le-pow, div-add-mod', mod-lt, div-le_self}
use canton_treasury_dvp.Base.{
  ℕ, zero, suc, ◌+◌, ◌-◌, ◌*◌, ◌/◌, ◌%◌, ◌^◌, ◌<◌, ◌≤◌, ◌≡◌, refl, ap, ◌∙◌, sym, true, false, some,
  [], ◌∷◌, ◌++◌, arith, ok, err, length, length-append, length-replicate, all, replicate,
  Bool-cases, inl, inr, ◌==◌, &&_true, ◌>>=◌, leb, lt→ltb,
}
use canton_treasury_dvp.Bridge.Units.{
  Text, too_precise, scale_for, whole_units, frac_units, pad_right, pad_left, show_u64, show_digits,
  digits_value, is_ascii_digit, parts_to_base_units, parts_of, canton_decimal_to_base_units,
  base_units_to_canton_decimal, checked_mul, checked_add, validate_decimals,
}
use canton_treasury_dvp.Bridge.Units.Digits.{
  digits_value-show_digits, all-show_digits, length-show_digits-le, length-show_digits-pos,
  all-append, all-replicate, digits_value-zeros, digits_value-all_zero, split_once-digits,
  trim-plain, all_digits-plain, is_plain,
}

ten_pow_small : (d : ℕ) → d ≤ 18 → 10 ^ d < 2 ^ 64
ten_pow_small d h = omega (arith, pow-le-pow_right {n = 10} (omega arith) {i = d} {j = 18} h)

ten_pow_pos : (d : ℕ) → 0 < 10 ^ d
ten_pow_pos d = one-le-pow d 10 (omega arith)

-- The scale exists for every number of decimals that is allowed, so `checked_pow` never fails.
pub scale_for-eq : (d : ℕ) → d ≤ 18 → scale_for d ≡ ok (10 ^ d)
unfolding scale_for
scale_for-eq d h = ground (arith, ten_pow_small d h)

whole_units-eq :
    (c : ℕ) (s : Text)
    → digits_value 0 (c ∷ s) < 2 ^ 64
    → whole_units (c ∷ s) ≡ ok (digits_value 0 (c ∷ s))
unfolding whole_units
whole_units-eq c s h = elim (Bool-cases (all (λ b. b == b'0') (c ∷ s))) [
  | inl zeroes ↦ rw zeroes (ap ok (sym (digits_value-all_zero (c ∷ s) zeroes)))
  | inr other ↦ rw (other, lt→ltb (digits_value 0 (c ∷ s)) (2 ^ 64) h)
]

frac_units-eq :
    (c : ℕ) (s : Text)
    → digits_value 0 (c ∷ s) < 2 ^ 64
    → frac_units (c ∷ s) ≡ ok (digits_value 0 (c ∷ s))
unfolding frac_units
frac_units-eq c s h = rw (lt→ltb (digits_value 0 (c ∷ s)) (2 ^ 64) h)

pad_right-full : (width : ℕ) (s : Text) → length s ≡ width → pad_right width s ≡ s
unfolding pad_right
pad_right-full width s h =
    let none_left : width - length s ≡ 0 = omega arith in rw none_left (append-nil s)

checked_mul-eq : (a b : ℕ) → a * b < 2 ^ 64 → checked_mul a b ≡ some (a * b)
unfolding checked_mul
checked_mul-eq a b h = rw (lt→ltb (a * b) (2 ^ 64) h) refl

checked_add-eq : (a b : ℕ) → a + b < 2 ^ 64 → checked_add a b ≡ some (a + b)
unfolding checked_add
checked_add-eq a b h = rw (lt→ltb (a + b) (2 ^ 64) h) refl

not_zero : (n : ℕ) → 0 < n → (n == 0) ≡ false
not_zero n h = ground (arith, h)

parts_refined :
    (c e d W F : ℕ) (w f : Text)
    → all is_ascii_digit (c ∷ w) ≡ true
    → all is_ascii_digit (e ∷ f) ≡ true
    → leb (length (e ∷ f)) d ≡ true
    → whole_units (c ∷ w) ≡ ok W
    → frac_units (pad_right d (e ∷ f)) ≡ ok F
    → d ≤ 18
    → 0 < W * 10 ^ d + F
    → W * 10 ^ d + F < 2 ^ 64
    → parts_to_base_units (c ∷ w) (e ∷ f) d ≡ ok (W * 10 ^ d + F)
unfolding parts_to_base_units
parts_refined c e d W F w f dw df fits hw hf hd pos bound =
    let product : checked_mul W (10 ^ d) ≡ some (W * 10 ^ d) =
      checked_mul-eq W (10 ^ d) (omega arith) in
    rw
      (
        dw,
        df,
        fits,
        hw,
        hf,
        scale_for-eq d hd,
        product,
        checked_add-eq (W * 10 ^ d) F bound,
        not_zero (W * 10 ^ d + F) pos,
      )
      refl

-- The conversion of two texts of digits, from their values.
parts_value :
    (w f : Text) (d W F : ℕ)
    → 0 < length w
    → 0 < d
    → d ≤ 18
    → length f ≡ d
    → all is_ascii_digit w ≡ true
    → all is_ascii_digit f ≡ true
    → digits_value 0 w ≡ W
    → digits_value 0 f ≡ F
    → 0 < W * 10 ^ d + F
    → W * 10 ^ d + F < 2 ^ 64
    → parts_to_base_units w f d ≡ ok (W * 10 ^ d + F)
parts_value [] f d W F hw hd hd' hf dw df vw vf pos bound = absurd (omega arith)
parts_value (c ∷ w) [] d W F hw hd hd' hf dw df vw vf pos bound = absurd (omega arith)
parts_value (c ∷ w) (e ∷ f) d W F hw hd hd' hf dw df vw vf pos bound =
    let w_small : digits_value 0 (c ∷ w) < 2 ^ 64 = grind (arith, ten_pow_pos d) in
    let f_small : digits_value 0 (e ∷ f) < 2 ^ 64 = omega arith in
    parts_refined c e d W F w f dw df (ground (arith, hf)) (whole_units-eq c w w_small ∙ ap ok vw)
      (ap frac_units (pad_right-full d (e ∷ f) hf) ∙ frac_units-eq e f f_small ∙ ap ok vf) hd' pos
      bound

pub show_u64-IsDigits : (n : ℕ) → all is_ascii_digit (show_u64 n) ≡ true
unfolding show_u64
show_u64-IsDigits n = all-show_digits 20 n [] refl

pub digits_value-show_u64 : (n : ℕ) → n < 2 ^ 64 → digits_value 0 (show_u64 n) ≡ n
unfolding show_u64 digits_value
digits_value-show_u64 n h = digits_value-show_digits 20 n [] (omega arith)

pub length-show_u64-pos : (n : ℕ) → 0 < length (show_u64 n)
unfolding show_u64 show_digits
length-show_u64-pos n = elim (Bool-cases (n / 10 == 0)) [
  | inl last ↦ rw last (omega arith)
  | inr more ↦ rw more (length-show_digits-pos 19 (n / 10) ((b'0' + n % 10) ∷ []) (omega arith))
]

pub length-pad_left : (d n : ℕ) → 0 < d → n < 10 ^ d → length (pad_left d (show_u64 n)) ≡ d
unfolding pad_left show_u64
length-pad_left zero n hd h = absurd (omega arith)
length-pad_left (suc k) n hd h =
    let fits = length-show_digits-le 20 k n [] h in
    rw
      (
        length-append (replicate (suc k - length (show_digits 20 n [])) b'0') (show_digits 20 n []),
        length-replicate {A = ℕ} (suc k - length (show_digits 20 n [])) b'0',
      )
      (omega arith)

length-pad_left-pos : (d n : ℕ) → 0 < length (pad_left d (show_u64 n))
unfolding pad_left
length-pad_left-pos d n =
    rw (length-append (replicate (d - length (show_u64 n)) b'0') (show_u64 n))
      (omega (arith, length-show_u64-pos n))

pub pad_left-IsDigits : (d n : ℕ) → all is_ascii_digit (pad_left d (show_u64 n)) ≡ true
unfolding pad_left is_ascii_digit
pad_left-IsDigits d n =
    all-append is_ascii_digit (replicate (d - length (show_u64 n)) b'0') (show_u64 n)
      (all-replicate is_ascii_digit (d - length (show_u64 n)) b'0' refl) (show_u64-IsDigits n)

pub digits_value-pad_left : (d n : ℕ) → n < 2 ^ 64 → digits_value 0 (pad_left d (show_u64 n)) ≡ n
unfolding pad_left
digits_value-pad_left d n h =
    digits_value-zeros (d - length (show_u64 n)) (show_u64 n) ∙ digits_value-show_u64 n h

pub dot_plain : (f : Text) → all is_ascii_digit f ≡ true → all is_plain (b'.' ∷ f) ≡ true
unfolding is_ascii_digit
dot_plain f h = all_digits-plain f h

digit_not_minus : (c : ℕ) → is_ascii_digit c ≡ true → (c == b'-') ≡ false
unfolding is_ascii_digit
digit_not_minus c h = ground arith

parts_of-digits : (w f : Text) → all is_ascii_digit w ≡ true → parts_of (w ++ (b'.' ∷ f)) ≡ (w, f)
unfolding parts_of
parts_of-digits w f dw = rw (parts_of, split_once-digits w f dw) refl

-- Two texts of digits with a point between them are read as their two parts.
read_parts :
    (w f : Text) (d : ℕ)
    → 0 < length w
    → d ≤ 18
    → all is_ascii_digit w ≡ true
    → all is_ascii_digit f ≡ true
    → canton_decimal_to_base_units (w ++ (b'.' ∷ f)) d ≡ parts_to_base_units w f d
unfolding canton_decimal_to_base_units validate_decimals
read_parts [] f d hw hd dw df = absurd (omega arith)
read_parts (c ∷ w) f d hw hd dw df =
    let plain : all is_plain ((c ∷ w) ++ (b'.' ∷ f)) ≡ true =
      all-append is_plain (c ∷ w) (b'.' ∷ f) (all_digits-plain (c ∷ w) dw) (dot_plain f df) in
    let here : (c == b'-') ≡ false = digit_not_minus c (&&_true (is_ascii_digit c) _ dw).0 in
    let valid : leb d 18 ≡ true = ground (arith, hd) in
    rw (valid, trim-plain ((c ∷ w) ++ (b'.' ∷ f)) plain, here, parts_of-digits (c ∷ w) f dw) refl

pub printed :
    (b d : ℕ)
    → 0 < b
    → d ≤ 18
    → base_units_to_canton_decimal b d
      ≡ ok (show_u64 (b / 10 ^ d) ++ (b'.' ∷ pad_left d (show_u64 (b % 10 ^ d))))
unfolding base_units_to_canton_decimal
printed b d pos hd = rw (not_zero b pos, scale_for-eq d hd) refl

-- An amount other than zero that is printed with 1 to 18 decimals is read back as the same number
-- of base units.
pub amount_round_trip :
    (b d : ℕ)
    → 0 < b
    → b < 2 ^ 64
    → 0 < d
    → d ≤ 18
    → (base_units_to_canton_decimal b d >>= (λ s. canton_decimal_to_base_units s d)) ≡ ok b
amount_round_trip b d pos bound hd hd' =
    let W = b / 10 ^ d in
    let F = b % 10 ^ d in
    let whole : W * 10 ^ d + F ≡ b = div-add-mod' b (10 ^ d) in
    let F_small : F < 10 ^ d = mod-lt b (ten_pow_pos d) in
    let F_bound : F < 2 ^ 64 = omega (arith, ten_pow_small d hd') in
    let W_bound : W < 2 ^ 64 = omega (arith, div-le_self b (10 ^ d)) in
    rw (printed b d pos hd') (
      read_parts (show_u64 W) (pad_left d (show_u64 F)) d (length-show_u64-pos W) hd'
        (show_u64-IsDigits W) (pad_left-IsDigits d F)
      ∙ parts_value (show_u64 W) (pad_left d (show_u64 F)) d W F (length-show_u64-pos W) hd hd'
          (length-pad_left d F hd F_small) (show_u64-IsDigits W) (pad_left-IsDigits d F)
          (digits_value-show_u64 W W_bound) (digits_value-pad_left d F F_bound) (omega arith)
          (omega arith)
      ∙ ap ok whole)

parts_too_long :
    (w f : Text) (d : ℕ)
    → 0 < length w
    → all is_ascii_digit w ≡ true
    → all is_ascii_digit f ≡ true
    → d < length f
    → parts_to_base_units w f d ≡ err too_precise
unfolding parts_to_base_units
parts_too_long [] f d hw dw df long = absurd (omega arith)
parts_too_long (c ∷ w) f d hw dw df long =
    let refused : leb (length f) d ≡ false = ground (arith, long) in rw (dw, df, refused) refl

-- With no decimals every amount is printed with a fraction of one zero, which the reader refuses.
pub no_decimals_refused :
    (b : ℕ)
    → 0 < b
    → b < 2 ^ 64
    → (base_units_to_canton_decimal b 0 >>= (λ s. canton_decimal_to_base_units s 0))
      ≡ err too_precise
no_decimals_refused b pos bound = rw (printed b 0 pos (omega arith)) (
    read_parts (show_u64 (b / 1)) (pad_left 0 (show_u64 (b % 1))) 0 (length-show_u64-pos (b / 1))
      (omega arith) (show_u64-IsDigits (b / 1)) (pad_left-IsDigits 0 (b % 1))
    ∙ parts_too_long (show_u64 (b / 1)) (pad_left 0 (show_u64 (b % 1))) 0
        (length-show_u64-pos (b / 1)) (show_u64-IsDigits (b / 1)) (pad_left-IsDigits 0 (b % 1))
        (length-pad_left-pos 0 (b % 1)))
