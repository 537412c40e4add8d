-- ===== src/Examples/Digests.antt =====
-- The theorems on digests, signatures and transfer data, at concrete bytes.
use canton_treasury_dvp.Base.{
  ℕ, ◌≡◌, ◌≤◌, refl, true, false, [], ◌∷◌, List, Bytes, replicate, ok, pos, arith,
}
use canton_treasury_dvp.Escrow.Canonical.{
  Operation, operation_digest, amount_commitment, proof_commitment, direction_release,
}
use canton_treasury_dvp.Escrow.Canonical.Binding.{
  IsCollisionFree, IsSized, operation_digest_binds, amount_commitment_binds, proof_commitment_binds,
}
use canton_treasury_dvp.Escrow.Ed25519.{parse_ed25519_instruction, Ed25519Approval}
use canton_treasury_dvp.Escrow.Ed25519.Layout.{
  Accepts, encode, parse_ed25519_instruction-Accepts, parse_ed25519_instruction-encode,
}
use canton_treasury_dvp.Escrow.Confidential.{TransferCiphertexts, parse_transfer_ciphertexts}
use canton_treasury_dvp.Escrow.Confidential.Transfer.{Packs, parse_transfer_ciphertexts-Packs}
use canton_treasury_dvp.Escrow.State.{OperationApproval, distinct_signers, count_ones}
use canton_treasury_dvp.Escrow.State.Quorum.{IsPair, has_bit, quorum-IsPair}
use canton_treasury_dvp.Bridge.Canonical as Workflow
use canton_treasury_dvp.Bridge.Canonical.Agreement.{digests_agree}
use canton_treasury_dvp.Examples.Setting.{key, ciphertext, checksum}

-- A hash without collisions.
abbrev identity : Bytes → Bytes
identity bytes = bytes

identity-IsCollisionFree : IsCollisionFree identity
identity-IsCollisionFree x y e = e

abbrev release : Operation
release = record {
  chain_id = key 60;
  program_id = key 23;
  config = key 24;
  operation = key 50;
  direction = direction_release;
  lock_receipt = key 25;
  destination = key 14;
  amount_commitment = key 41;
  zama_reservation = key 42;
  previous_operation = key 43;
  expiry = pos 1000;
  proof_commitment = key 44;
}

release-IsSized : IsSized release
release-IsSized = record {
  chain_id = refl;
  program_id = refl;
  config = refl;
  operation = refl;
  lock_receipt = refl;
  destination = refl;
  amount_commitment = refl;
  zama_reservation = refl;
  previous_operation = refl;
  expiry = omega arith;
  proof_commitment = refl;
}

operation_digest_binds_example : release ≡ release
operation_digest_binds_example =
    operation_digest_binds identity identity-IsCollisionFree release release release-IsSized
      release-IsSized refl

abbrev amount : ℕ
amount = 100000

amount_commitment_binds_example : (amount ≡ amount) × (key 9 ≡ key 9)
amount_commitment_binds_example =
    amount_commitment_binds identity identity-IsCollisionFree amount amount (key 9) (key 9)
      (omega arith) (omega arith) refl

abbrev parts : List Bytes
parts = replicate 36 5 ∷ replicate 64 6 ∷ replicate 64 7 ∷ key 31 ∷ key 32 ∷ key 33 ∷ []

proof_commitment_binds_example : parts ≡ parts
proof_commitment_binds_example =
    proof_commitment_binds identity identity-IsCollisionFree (replicate 36 5) (replicate 36 5)
      (replicate 64 6) (replicate 64 6) (replicate 64 7) (replicate 64 7) (key 31) (key 31) (key 32)
      (key 32) (key 33) (key 33) (refl, (refl, (refl, (refl, (refl, (refl, tt)))))) refl

digests_agree_example :
    (Workflow.operation_digest checksum release ≡ operation_digest checksum release)
    × (Workflow.amount_commitment checksum amount (key 9)
        ≡ amount_commitment checksum amount (key 9))
    × (Workflow.proof_commitment checksum (key 1) (key 2) (key 3) (key 4) (key 5) (key 6)
        ≡ proof_commitment checksum (key 1) (key 2) (key 3) (key 4) (key 5) (key 6))
digests_agree_example =
    digests_agree checksum release amount (key 9) (key 1) (key 2) (key 3) (key 4) (key 5) (key 6)

abbrev attested : Ed25519Approval
attested = record { attester = key 1; digest = key 2 }

parse_ed25519_instruction-encode_example :
    parse_ed25519_instruction (encode (key 1) (replicate 64 3) (key 2)) ≡ ok attested
parse_ed25519_instruction-encode_example =
    parse_ed25519_instruction-encode (key 1) (replicate 64 3) (key 2) refl refl refl

encode_parses : parse_ed25519_instruction (encode (key 1) (replicate 64 3) (key 2)) ≡ ok attested
encode_parses = parse_ed25519_instruction-encode (key 1) (replicate 64 3) (key 2) refl refl refl

parse_ed25519_instruction-Accepts_example :
    Accepts (encode (key 1) (replicate 64 3) (key 2)) attested
parse_ed25519_instruction-Accepts_example =
    parse_ed25519_instruction-Accepts (encode (key 1) (replicate 64 3) (key 2)) attested
      encode_parses

abbrev zeroes : TransferCiphertexts
zeroes = record {
  decryptable = replicate 36 0;
  auditor_lo = replicate 64 0;
  auditor_hi = replicate 64 0;
}

ciphertext_parses : parse_transfer_ciphertexts ciphertext ≡ ok zeroes
unfolding parse_transfer_ciphertexts
ciphertext_parses = refl

parse_transfer_ciphertexts-Packs_example : Packs ciphertext zeroes
parse_transfer_ciphertexts-Packs_example =
    parse_transfer_ciphertexts-Packs ciphertext zeroes ciphertext_parses

-- The first and the third attester.
abbrev two_signers : OperationApproval
two_signers = record {
  operation = key 50;
  direction = direction_release;
  digest = key 2;
  signer_bitmap = 5;
  consumed = false;
  bump = 255;
  expiry = pos 1000;
}

two_are_counted : 2 ≤ distinct_signers two_signers
unfolding distinct_signers count_ones
two_are_counted = omega arith

quorum-IsPair_example : (i : ℕ) × (j : ℕ) × IsPair i j × (has_bit 5 i ≡ true) × (has_bit 5 j ≡ true)
quorum-IsPair_example = quorum-IsPair two_signers (omega arith) two_are_counted
