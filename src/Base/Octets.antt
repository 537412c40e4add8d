-- ===== src/Base/Octets.antt =====
-- Byte strings, their equality, and little-endian numbers.
use Prim.Native.Char.{code}
use Prim.Native.String.{String}
use Prim.Native.Nat.{ℕ, zero, suc, ◌+◌, ◌*◌, ◌/◌, ◌%◌, ◌^◌, ◌<◌}
use mathlib.Core.Path.{◌≡◌, refl, ap}
use mathlib.Core.Logic.{◌↔◌}
use mathlib.Core.List.{List, [], ◌∷◌}
use mathlib.Core.Bool.{Bool, true, false, ◌&&◌}
use native.Mathlib.Omega.{arith}
use native.Mathlib.Nat.{pow-succ'}
use canton_treasury_dvp.Base.Tests.{◌==◌}
use canton_treasury_dvp.Base.Lists.{length}

abbrev pub Bytes : Type 0
Bytes = List ℕ

-- The bytes of an ASCII literal.
abbrev pub codes : String → Bytes
codes String.[] = []
codes (String.◌∷◌ c s) = code c ∷ codes s

unfoldable pub bytes_eq : Bytes → Bytes → Bool
bytes_eq [] [] = true
bytes_eq [] (b ∷ vs) = false
bytes_eq (a ∷ us) [] = false
bytes_eq (a ∷ us) (b ∷ vs) = a == b && bytes_eq us vs

pub bytes_eq_iff : (us vs : Bytes) → (bytes_eq us vs ≡ true) ↔ (us ≡ vs)
unfolding bytes_eq
bytes_eq_iff [] [] = (λ _. refl, λ _. refl)
bytes_eq_iff [] (b ∷ vs) = (λ h. cc, λ h. cc)
bytes_eq_iff (a ∷ us) [] = (λ h. cc, λ h. cc)
bytes_eq_iff (a ∷ us) (b ∷ vs) =
    (λ h. ground (arith, bytes_eq_iff us vs), λ h. ground (arith, bytes_eq_iff us vs))

pub bytes_eq_refl : (us : Bytes) → bytes_eq us us ≡ true
bytes_eq_refl us = (bytes_eq_iff us us).1 refl

-- `to_le_bytes` of a number of `w` bytes.
unfoldable pub to_le_bytes : ℕ → ℕ → Bytes
to_le_bytes zero n = []
to_le_bytes (suc w) n = n % 256 ∷ to_le_bytes w (n / 256)

unfoldable pub from_le_bytes : Bytes → ℕ
from_le_bytes [] = 0
from_le_bytes (b ∷ vs) = b + 256 * from_le_bytes vs

pub length-to_le_bytes : (w n : ℕ) → length (to_le_bytes w n) ≡ w
unfolding to_le_bytes
length-to_le_bytes zero n = refl
length-to_le_bytes (suc w) n = ap suc (length-to_le_bytes w (n / 256))

pub from_le_bytes-to_le_bytes : (w n : ℕ) → n < 256 ^ w → from_le_bytes (to_le_bytes w n) ≡ n
unfolding to_le_bytes from_le_bytes
from_le_bytes-to_le_bytes zero n h = omega arith
from_le_bytes-to_le_bytes (suc w) n h =
    omega (arith, pow-succ' 256 w, from_le_bytes-to_le_bytes w (n / 256) (omega arith))
