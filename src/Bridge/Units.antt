-- ===== src/Bridge/Units.antt =====
-- bridge/src/units.rs: token amounts in base units, and the decimal texts that Canton uses. A text
-- is its list of code points.
pub mod Digits
pub mod RoundTrip
use canton_treasury_dvp.Base.{
  ℕ, zero, suc, ◌+◌, ◌-◌, ◌*◌, ◌/◌, ◌%◌, ◌^◌, Bool, true, false, ◌&&◌, ◌||◌, not, Option, none,
  some, List, [], ◌∷◌, ◌++◌, Bytes, Result, ok, err, ◌>>=◌, ◌>>◌, require, ok_or, length, all, any,
  replicate, ltb, leb, ◌==◌, if◌then◌else◌,
}

pub data UnitsError : Type 0 where
  zero_amount unsupported_decimals scale_overflow overflow not_whole_tokens wrong_decimals :
      UnitsError
  empty_amount negative_amount bad_whole bad_fraction too_precise : UnitsError

abbrev pub Text : Type 0
Text = List ℕ

abbrev pub u64_mod : ℕ
u64_mod = 2 ^ 64

unfoldable pub checked_mul : ℕ → ℕ → Option ℕ
checked_mul a b = if ltb (a * b) u64_mod then some (a * b) else none

unfoldable pub checked_add : ℕ → ℕ → Option ℕ
checked_add a b = if ltb (a + b) u64_mod then some (a + b) else none

abbrev pub demo_token_decimals : ℕ
demo_token_decimals = 6

abbrev pub demo_whole_tokens : ℕ
demo_whole_tokens = 100000

abbrev pub demo_base_units : ℕ
demo_base_units = 100000000000

pub record TokenUnits : Type 0 where
  pub decimals : ℕ
  pub base_units : ℕ

abbrev pub demo_units : TokenUnits
demo_units = record { decimals = demo_token_decimals; base_units = demo_base_units }

unfoldable pub validate_decimals : ℕ → Result UnitsError (Unit {0})
validate_decimals decimals = require (leb decimals 18) unsupported_decimals

-- `10u64.checked_pow(decimals)`
unfoldable pub scale_for : ℕ → Result UnitsError ℕ
unfolding validate_decimals
scale_for decimals = do
  validate_decimals decimals
  ok_or (if ltb (10 ^ decimals) u64_mod then some (10 ^ decimals) else none) scale_overflow

unfoldable pub require_mint_decimals : ℕ → ℕ → Result UnitsError (Unit {0})
unfolding validate_decimals
require_mint_decimals actual expected = do
  validate_decimals actual
  require (actual == expected) wrong_decimals

-- `char::is_whitespace`
unfoldable pub is_whitespace : ℕ → Bool
is_whitespace c =
    (leb 9 c && leb c 13)
    || c == 32
    || c == 0x85
    || c == 0xA0
    || c == 0x1680
    || (leb 0x2000 c && leb c 0x200A)
    || c == 0x2028
    || c == 0x2029
    || c == 0x202F
    || c == 0x205F
    || c == 0x3000

unfoldable pub is_ascii_digit : ℕ → Bool
is_ascii_digit c = leb b'0' c && leb c b'9'

-- `trim_end` and `trim_start`: of a whitespace suffix and prefix.
unfoldable pub trim_end : Text → Text
trim_end [] = []
trim_end (c ∷ s) = if all is_whitespace (c ∷ s) then [] else c ∷ trim_end s

unfoldable pub trim_start : Text → Text
trim_start [] = []
trim_start (c ∷ s) = if is_whitespace c then trim_start s else c ∷ s

unfoldable pub trim : Text → Text
unfolding trim_end trim_start
trim s = trim_end (trim_start s)

-- `split_once`, at the first occurrence.
unfoldable pub split_once : ℕ → Text → Option (Text × Text)
split_once sep [] = none
split_once sep (c ∷ s) =
    if c == sep
    then some ([], s)
    else elim (split_once sep s) [ none ↦ none | some (before, after) ↦ some (c ∷ before, after) ]

-- The number that a text of digits stands for, behind the digits of `acc`.
unfoldable pub digits_value : ℕ → Text → ℕ
digits_value acc [] = acc
digits_value acc (c ∷ s) = digits_value (acc * 10 + (c - b'0')) s

-- `parse::<u64>` of a text of digits.
unfoldable pub parse_u64 : Text → Option ℕ
unfolding digits_value
parse_u64 [] = none
parse_u64 (c ∷ s) = let n = digits_value 0 (c ∷ s) in if ltb n u64_mod then some n else none

-- `while frac.len() < width { frac.push('0') }`
unfoldable pub pad_right : ℕ → Text → Text
pad_right width s = s ++ replicate (width - length s) b'0'

-- The whole and the fractional part.
unfoldable pub parts_of : Text → Text × Text
unfolding split_once
parts_of amount = elim (split_once b'.' amount) [ some parts ↦ parts | none ↦ (amount, []) ]

unfoldable pub whole_units : Text → Result UnitsError ℕ
unfolding parse_u64
whole_units whole = if all (λ c. c == b'0') whole then ok 0 else ok_or (parse_u64 whole) overflow

unfoldable pub frac_units : Text → Result UnitsError ℕ
unfolding parse_u64
frac_units [] = ok 0
frac_units (c ∷ s) = ok_or (parse_u64 (c ∷ s)) overflow

abbrev pub is_empty : Text → Bool
is_empty [] = true
is_empty (c ∷ s) = false

abbrev pub starts_with_minus : Text → Bool
starts_with_minus [] = false
starts_with_minus (c ∷ s) = c == b'-'

-- The conversion of the two parts.
unfoldable pub parts_to_base_units : Text → Text → ℕ → Result UnitsError ℕ
unfolding is_ascii_digit
parts_to_base_units whole frac decimals = do
  require (not (is_empty whole) && all is_ascii_digit whole) bad_whole
  require (all is_ascii_digit frac) bad_fraction
  require (leb (length frac) decimals) too_precise
  w ← whole_units whole
  f ← frac_units (pad_right decimals frac)
  scale ← scale_for decimals
  whole_base ← ok_or (checked_mul w scale) overflow
  base_units ← ok_or (checked_add whole_base f) overflow
  require (not (base_units == 0)) zero_amount
  ok base_units

unfoldable pub canton_decimal_to_base_units : Text → ℕ → Result UnitsError ℕ
unfolding validate_decimals
canton_decimal_to_base_units text decimals = do
  validate_decimals decimals
  let amount = trim text
  require (not (is_empty amount)) empty_amount
  require (not (starts_with_minus amount)) negative_amount
  let parts = parts_of amount
  parts_to_base_units parts.0 parts.1 decimals

-- `to_string` of a number below 10 ^ fuel: its digits before `out`.
unfoldable pub show_digits : ℕ → ℕ → Text → Text
show_digits zero n out = out
show_digits (suc fuel) n out =
    let rest = show_digits fuel (n / 10) ((b'0' + n % 10) ∷ out) in
    if n / 10 == 0 then (b'0' + n % 10) ∷ out else rest

-- A `u64` has at most 20 digits.
unfoldable pub show_u64 : ℕ → Text
unfolding show_digits
show_u64 n = show_digits 20 n []

-- `{:0>width$}`
unfoldable pub pad_left : ℕ → Text → Text
pad_left width s = replicate (width - length s) b'0' ++ s

unfoldable pub base_units_to_canton_decimal : ℕ → ℕ → Result UnitsError Text
unfolding scale_for show_u64 pad_left
base_units_to_canton_decimal base_units decimals = do
  require (not (base_units == 0)) zero_amount
  scale ← scale_for decimals
  ok (show_u64 (base_units / scale) ++ (b'.' ∷ pad_left decimals (show_u64 (base_units % scale))))

unfoldable pub from_base_units : ℕ → ℕ → Result UnitsError TokenUnits
unfolding validate_decimals
from_base_units base_units decimals = do
  validate_decimals decimals
  require (not (base_units == 0)) zero_amount
  ok (record { decimals = decimals; base_units = base_units })

unfoldable pub from_whole_tokens : ℕ → ℕ → Result UnitsError TokenUnits
unfolding scale_for checked_mul
from_whole_tokens tokens decimals = do
  scale ← scale_for decimals
  require (not (tokens == 0)) zero_amount
  base_units ← ok_or (checked_mul tokens scale) overflow
  ok (record { decimals = decimals; base_units = base_units })

unfoldable pub from_canton_decimal : Text → ℕ → Result UnitsError TokenUnits
unfolding canton_decimal_to_base_units from_base_units
from_canton_decimal amount decimals = do
  base_units ← canton_decimal_to_base_units amount decimals
  from_base_units base_units decimals

unfoldable pub canton_decimal : TokenUnits → Result UnitsError Text
unfolding base_units_to_canton_decimal
canton_decimal u = base_units_to_canton_decimal u.base_units u.decimals

unfoldable pub whole_tokens : TokenUnits → Result UnitsError ℕ
unfolding scale_for
whole_tokens u = do
  scale ← scale_for u.decimals
  require (u.base_units % scale == 0) not_whole_tokens
  ok (u.base_units / scale)
