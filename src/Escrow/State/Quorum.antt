-- ===== src/Escrow/State/Quorum.antt =====
-- The signer bitmap of an approval as a set of attester indices.
use Prim.Native.Nat.{bit_and, bit_or}
use canton_treasury_dvp.Base.{
  ℕ, zero, suc, ◌+◌, subst, if◌then◌else◌, ◌^◌, ◌≤◌, ◌<◌, ◌≡◌, refl, Bool, true, false, ◌&&◌, ◌||◌,
  not, arith, ltb, leb, ◌==◌, inl, inr, Bool-cases,
}
use canton_treasury_dvp.Escrow.State.{count_ones, OperationApproval, distinct_signers}

-- Attester `i` is in the bitmap.
unfoldable pub has_bit : ℕ → ℕ → Bool
has_bit bitmap i = not (bit_and bitmap (2 ^ i) == 0)

-- A test of `count` numbers, from `first` on.
checks : (ℕ → Bool) → ℕ → ℕ → Bool
checks test first zero = true
checks test first (suc count) = if test first then checks test (suc first) count else false

checks-parts :
    (test : ℕ → Bool) (first count : ℕ)
    → checks test first (suc count) ≡ true
    → (test first ≡ true) × (checks test (suc first) count ≡ true)
unfolding checks
checks-parts test first count passed = ground (arith, passed)

checks-at :
    (test : ℕ → Bool) (first count offset : ℕ)
    → checks test first count ≡ true
    → offset < count
    → test (first + offset) ≡ true
checks-at test first zero offset passed inside = absurd (omega arith)
checks-at test first (suc count) zero passed inside =
    subst (λ (n : ℕ). test n ≡ true) (omega arith) (checks-parts test first count passed).0
checks-at test first (suc count) (suc k) passed inside =
    subst (λ (n : ℕ). test n ≡ true) (omega arith)
      (checks-at test (suc first) count k (checks-parts test first count passed).1 (omega arith))

-- A test of the numbers below `n` holds for each of them.
checks_below : (n : ℕ) (test : ℕ → Bool) (x : ℕ) → checks test 0 n ≡ true → x < n → test x ≡ true
checks_below n test x passed inside =
    subst (λ (k : ℕ). test k ≡ true) (omega arith) (checks-at test 0 n x passed inside)

eqb : Bool → Bool → Bool
eqb true b = b
eqb false b = not b

eqb-eq : (a b : Bool) → eqb a b ≡ true → a ≡ b
unfolding eqb
eqb-eq a b h = ground arith

-- The bits after `bitmap |= 1 << i`.
set_bit_row : ℕ → ℕ → ℕ → Bool
set_bit_row b i j =
    ltb (bit_or b (2 ^ i)) 8
    && not (bit_or b (2 ^ i) == 0)
    && eqb (has_bit (bit_or b (2 ^ i)) j) (j == i || has_bit b j)

set_bit_table : checks (λ b. checks (λ i. checks (set_bit_row b i) 0 3) 0 3) 0 8 ≡ true
unfolding checks set_bit_row has_bit eqb
set_bit_table = refl

set_bit_row_holds : (b i j : ℕ) → b < 8 → i < 3 → j < 3 → set_bit_row b i j ≡ true
set_bit_row_holds b i j hb hi hj =
    let outer =
      checks_below 8 (λ c. checks (λ k. checks (set_bit_row c k) 0 3) 0 3) b set_bit_table hb in
    let middle = checks_below 3 (λ k. checks (set_bit_row b k) 0 3) i outer hi in
    checks_below 3 (set_bit_row b i) j middle hj

pub set_bit-lt : (b i : ℕ) → b < 8 → i < 3 → bit_or b (2 ^ i) < 8
unfolding set_bit_row
set_bit-lt b i hb hi = ground (arith, set_bit_row_holds b i 0 hb hi (omega arith))

pub set_bit-ne-zero : (b i : ℕ) → b < 8 → i < 3 → (bit_or b (2 ^ i) == 0) ≡ false
unfolding set_bit_row
set_bit-ne-zero b i hb hi = ground (arith, set_bit_row_holds b i 0 hb hi (omega arith))

pub has_bit-set_bit :
    (b i j : ℕ) → b < 8 → i < 3 → j < 3 → has_bit (bit_or b (2 ^ i)) j ≡ (j == i || has_bit b j)
unfolding set_bit_row
has_bit-set_bit b i j hb hi hj = eqb-eq _ _ (ground (arith, set_bit_row_holds b i j hb hi hj))

pub has_bit-zero : (j : ℕ) → j < 3 → has_bit 0 j ≡ false
unfolding has_bit
has_bit-zero zero h = refl
has_bit-zero (suc zero) h = refl
has_bit-zero (suc (suc zero)) h = refl
has_bit-zero (suc (suc (suc j))) h = absurd (omega arith)

-- Two attesters, the first index below the second.
abbrev pub IsPair : ℕ → ℕ → Type 0
IsPair i j = (i < j) × (j < 3)

quorum_row : ℕ → Bool
quorum_row b =
    eqb (leb 2 (count_ones 8 (bit_and b 7)))
      ((has_bit b 0 && has_bit b 1) || (has_bit b 0 && has_bit b 2) || (has_bit b 1 && has_bit b 2))

quorum_table : checks quorum_row 0 256 ≡ true
unfolding checks quorum_row has_bit eqb count_ones
quorum_table = refl

-- Where two signers are counted in a byte of signers, two different attesters have their bits set.
pub quorum-IsPair :
    (a : OperationApproval)
    → a.signer_bitmap < 256
    → 2 ≤ distinct_signers a
    → (i : ℕ) × (j : ℕ) × IsPair i j
      × (has_bit a.signer_bitmap i ≡ true)
      × (has_bit a.signer_bitmap j ≡ true)
unfolding distinct_signers quorum_row
quorum-IsPair a lt two =
    let row = eqb-eq _ _ (checks_below 256 quorum_row a.signer_bitmap quorum_table lt) in
    elim (Bool-cases (has_bit a.signer_bitmap 0)) [
      | inl zeroth ↦ elim (Bool-cases (has_bit a.signer_bitmap 1)) [
        | inl first ↦ (0, 1, omega arith, zeroth, first)
        | inr not_first ↦ (0, 2, omega arith, zeroth, ground (arith, row))
      ]
      | inr not_zeroth ↦ (1, 2, omega arith, ground (arith, row), ground (arith, row))
    ]
