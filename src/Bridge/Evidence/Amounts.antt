-- ===== src/Bridge/Evidence/Amounts.antt =====
-- bridge/src/canton.rs: printed amounts in the comparison of evidence.
use canton_treasury_dvp.Base.{
  ℕ, zero, suc, ◌+◌, ◌-◌, ◌*◌, ◌/◌, ◌%◌, ◌^◌, ◌<◌, ◌≤◌, ◌≡◌, refl, true, some, [], ◌∷◌, ◌++◌,
  length, replicate, all, leb, lt→ltb, ◌==◌, ==_iff, &&_true, Bool-cases, inl, inr, arith, ap, sym,
  ◌∙◌, ok, ok-injective,
}
use canton_treasury_dvp.Bridge.Units.{
  Text, is_ascii_digit, digits_value, pad_right, pad_left, show_u64, base_units_to_canton_decimal,
}
use canton_treasury_dvp.Bridge.Units.Digits.{
  all-append, split_once-digits, trim-plain, all_digits-plain, is_plain,
}
use canton_treasury_dvp.Bridge.Units.RoundTrip.{
  dot_plain, printed, show_u64-IsDigits, digits_value-show_u64, length-show_u64-pos,
  length-pad_left, pad_left-IsDigits, digits_value-pad_left,
}
use native.Mathlib.Nat.{div-add-mod', mod-lt}
use canton_treasury_dvp.Bridge.Evidence.{
  trim_zeros, parse_u128, combine, base6_of_parts, base6_parts, decimal_to_base6,
}

all_zero-replicate :
    (s : Text) (n : ℕ) → length s ≡ n → all (λ c. c == b'0') s ≡ true → replicate n b'0' ≡ s
all_zero-replicate [] zero h z = refl
all_zero-replicate [] (suc n) h z = absurd (omega arith)
all_zero-replicate (c ∷ s) zero h z = absurd (omega arith)
all_zero-replicate (c ∷ s) (suc n) h z =
    let parts = &&_true (c == b'0') _ z in
    rw ((==_iff c b'0').0 parts.0) (ap (◌∷◌ b'0') (all_zero-replicate s n (omega arith) parts.1))

succ_sub : (n m : ℕ) → suc n - suc m ≡ n - m
succ_sub n m = omega arith

-- Zeros that are trimmed off the end are padded again.
pad_right-trim_zeros : (n : ℕ) (s : Text) → length s ≡ n → pad_right n (trim_zeros s) ≡ s
unfolding pad_right trim_zeros
pad_right-trim_zeros zero [] h = refl
pad_right-trim_zeros (suc n) [] h = absurd (omega arith)
pad_right-trim_zeros zero (c ∷ s) h = absurd (omega arith)
pad_right-trim_zeros (suc n) (c ∷ s) h = elim (Bool-cases (all (λ x. x == b'0') (c ∷ s))) [
  | inl zeroes ↦
      let whole : suc n - 0 ≡ suc n = omega arith in
      rw (zeroes, whole) (all_zero-replicate (c ∷ s) (suc n) h zeroes)
  | inr other ↦
      rw (other, succ_sub n (length (trim_zeros s)))
        (ap (◌∷◌ c) (pad_right-trim_zeros n s (omega arith)))
]

trim_zeros-IsDigits :
    (s : Text) → all is_ascii_digit s ≡ true → all is_ascii_digit (trim_zeros s) ≡ true
unfolding trim_zeros
trim_zeros-IsDigits [] h = refl
trim_zeros-IsDigits (c ∷ s) h = elim (Bool-cases (all (λ x. x == b'0') (c ∷ s))) [
  | inl zeroes ↦ rw zeroes refl
  | inr other ↦ rw other (ground (arith, trim_zeros-IsDigits s, h))
]

length-trim_zeros : (s : Text) → length (trim_zeros s) ≤ length s
unfolding trim_zeros
length-trim_zeros [] = omega arith
length-trim_zeros (c ∷ s) = elim (Bool-cases (all (λ x. x == b'0') (c ∷ s))) [
  | inl zeroes ↦ rw zeroes (omega arith)
  | inr other ↦ rw other (omega (arith, length-trim_zeros s))
]

combine-eq :
    (w f : ℕ) → w * 1000000 + f < 2 ^ 64 → combine (some w) (some f) ≡ some (w * 1000000 + f)
combine-eq w f h =
    rw
      (
        lt→ltb (w * 1000000) (2 ^ 128) (omega arith),
        lt→ltb (w * 1000000 + f) (2 ^ 128) (omega arith),
      )
      refl

parse_u128-eq :
    (s : Text) (n : ℕ) → 0 < length s → digits_value 0 s ≡ n → n < 2 ^ 64 → parse_u128 s ≡ some n
unfolding parse_u128
parse_u128-eq [] n hs v h = absurd (omega arith)
parse_u128-eq (c ∷ s) n hs v h =
    rw (lt→ltb (digits_value 0 (c ∷ s)) (2 ^ 128) (omega arith)) (ap some v)

-- Two texts of digits, the second of six, with its last zeros trimmed off.
base6_of_digits :
    (w f : Text) (W F : ℕ)
    → 0 < length w
    → length f ≡ 6
    → all is_ascii_digit w ≡ true
    → all is_ascii_digit f ≡ true
    → digits_value 0 w ≡ W
    → digits_value 0 f ≡ F
    → W * 1000000 + F < 2 ^ 64
    → base6_of_parts w (trim_zeros f) ≡ some (W * 1000000 + F)
unfolding base6_of_parts
base6_of_digits [] f W F hw hf dw df vw vf h = absurd (omega arith)
base6_of_digits (c ∷ w) f W F hw hf dw df vw vf h =
    let short : leb (length (trim_zeros f)) 6 ≡ true = ground (arith, length-trim_zeros f, hf) in
    rw
      (
        dw,
        trim_zeros-IsDigits f df,
        short,
        pad_right-trim_zeros 6 f hf,
        parse_u128-eq (c ∷ w) W hw vw (omega arith),
        parse_u128-eq f F (omega arith) vf (omega arith),
      )
      (combine-eq W F h)

base6_parts-digits :
    (w f : Text) → all is_ascii_digit w ≡ true → base6_parts (w ++ (b'.' ∷ f)) ≡ (w, trim_zeros f)
unfolding base6_parts
base6_parts-digits w f dw = rw (base6_parts, split_once-digits w f dw) refl

-- The amount of an operation, as printed with the six decimals of the token, is compared in the
-- evidence by its base units: they are the number that the text is read as.
pub decimal_to_base6-printed :
    (b : ℕ) (s : Text)
    → 0 < b
    → b < 2 ^ 64
    → base_units_to_canton_decimal b 6 ≡ ok s
    → decimal_to_base6 s ≡ some b
unfolding decimal_to_base6
decimal_to_base6-printed b s pos bound h =
    let W = b / 1000000 in
    let F = b % 1000000 in
    let w = show_u64 W in
    let f = pad_left 6 (show_u64 F) in
    let whole : W * 1000000 + F ≡ b = div-add-mod' b 1000000 in
    let text : s ≡ w ++ (b'.' ∷ f) = ok-injective (sym h ∙ printed b 6 pos (omega arith)) in
    let F_small : F < 10 ^ 6 = mod-lt b {m = 1000000} (omega arith) in
    let plain : all is_plain (w ++ (b'.' ∷ f)) ≡ true =
      all-append is_plain w (b'.' ∷ f) (all_digits-plain w (show_u64-IsDigits W))
        (dot_plain f (pad_left-IsDigits 6 F)) in
    rw (text, trim-plain (w ++ (b'.' ∷ f)) plain, base6_parts-digits w f (show_u64-IsDigits W))
      (base6_of_digits w f W F (length-show_u64-pos W) (length-pad_left 6 F (omega arith) F_small)
          (show_u64-IsDigits W) (pad_left-IsDigits 6 F)
          (digits_value-show_u64 W (omega (arith, whole)))
          (digits_value-pad_left 6 F (omega (arith, F_small))) (omega arith)
        ∙ ap some whole)
