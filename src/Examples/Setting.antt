-- ===== src/Examples/Setting.antt =====
-- A runtime, keys, and the transactions of one operation that is locked, minted and released.
use canton_treasury_dvp.Base.{
  ℕ, ◌+◌, ◌%◌, true, false, some, List, [], ◌∷◌, ◌++◌, Bytes, replicate, pos,
}
use canton_treasury_dvp.Escrow.Canonical.{
  concat, proof_commitment, operation_digest, direction_mint, direction_release,
}
use canton_treasury_dvp.Escrow.Runtime.{Runtime}
use canton_treasury_dvp.Escrow.State.{
  receipt_seed, approval_seed, config_seed, vault_authority_seed,
}
use canton_treasury_dvp.Escrow.Ed25519.Layout.{encode}
use canton_treasury_dvp.Escrow.Confidential.{ProofContexts}
use canton_treasury_dvp.Escrow.Accounts.{AccountInfo, ApproveContext, MoveContext}
use canton_treasury_dvp.Escrow.Requests.{ApproveArgs, MovementArgs}
use canton_treasury_dvp.Escrow.Program.{
  Call, Event, transaction, initializes, locks, approves, releases,
}

abbrev pub key : ℕ → Bytes
key n = replicate 32 n

abbrev byte_sum : Bytes → ℕ
byte_sum [] = 0
byte_sum (b ∷ bytes) = b + byte_sum bytes

-- A stand-in for SHA-256: 32 bytes of a checksum.
abbrev pub checksum : Bytes → Bytes
checksum bytes = replicate 32 (byte_sum bytes % 256)

abbrev address : List Bytes → ℕ → Bytes
address seeds bump = concat seeds ++ (bump ∷ [])

abbrev pub found : List Bytes → Bytes
found seeds = address seeds 255

-- The token program's state counts its successful calls.
abbrev pub runtime : Runtime ℕ
runtime = record {
  hash = checksum;
  program_id = key 23;
  token_2022 = key 20;
  ed25519_program = key 21;
  instructions_id = key 22;
  create_address = address;
  find_bump = λ seeds. 255;
  account_owner = λ tokens account. key 20;
  unpack = λ tokens account. some (record {
    mint = key 10;
    owner = found (vault_authority_seed ∷ []);
    confidential =
        some
          (record { allow_non_confidential_credits = false; pending_balance_credit_counter = 1 });
  });
  invoke = λ tokens ix seeds. some (tokens + 1);
}

abbrev pub writable : Bytes → AccountInfo
writable k = record { key = k; is_signer = true; is_writable = true }

abbrev pub operation : Bytes
operation = key 50

abbrev pub config_at : Bytes
config_at = found (config_seed ∷ [])

abbrev pub receipt_at : Bytes
receipt_at = found (receipt_seed ∷ operation ∷ [])

abbrev pub approval_at : ℕ → Bytes
approval_at direction = found (approval_seed ∷ operation ∷ (direction ∷ []) ∷ [])

abbrev pub authority_at : Bytes
authority_at = found (vault_authority_seed ∷ [])

abbrev pub proofs : ProofContexts
proofs = record { equality = key 31; validity = key 32; range = key 33 }

abbrev pub ciphertext : Bytes
ciphertext = replicate 167 0

abbrev pub proof : Bytes
proof =
    proof_commitment checksum (replicate 36 0) (replicate 64 0) (replicate 64 0) (key 31) (key 32)
      (key 33)

abbrev pub initialize_call : Call
initialize_call =
    initializes
      (record {
        payer = writable (key 13);
        config = writable config_at;
        mint = writable (key 10);
        vault = writable (key 11);
        vault_authority = writable authority_at;
        token_program = writable (key 20);
      })
      (record {
        chain_id = key 60;
        attesters = record { first = key 1; second = key 2; third = key 3 };
      })

abbrev pub lock_call : Call
lock_call =
    locks
      (record {
        source_authority = writable (key 12);
        config = writable config_at;
        receipt = writable receipt_at;
        payer = writable (key 13);
        source = writable (key 15);
        vault = writable (key 11);
        mint = writable (key 10);
        vault_authority = writable authority_at;
        proofs = proofs;
        token_program = writable (key 20);
      })
      (record {
        operation = operation;
        destination = key 14;
        amount_commitment = key 41;
        zama_reservation = key 42;
        previous_operation = key 43;
        expiry = pos 1000;
        transfer_input = ciphertext;
        vault_decryptable = replicate 36 0;
      })

abbrev pub request : ℕ → ApproveArgs
request direction = record {
  operation = operation;
  direction = direction;
  destination = key 14;
  amount_commitment = key 41;
  zama_reservation = key 42;
  previous_operation = key 43;
  expiry = pos 1000;
  proof_commitment = proof;
}

abbrev pub digest : ℕ → Bytes
digest direction = operation_digest checksum (record {
  chain_id = key 60;
  program_id = key 23;
  config = config_at;
  operation = operation;
  direction = direction;
  lock_receipt = receipt_at;
  destination = key 14;
  amount_commitment = key 41;
  zama_reservation = key 42;
  previous_operation = key 43;
  expiry = pos 1000;
  proof_commitment = proof;
})

abbrev pub signed_by : ℕ → ℕ → ApproveContext
signed_by attester direction = record {
  payer = writable (key 13);
  config = writable config_at;
  receipt = writable receipt_at;
  approval = writable (approval_at direction);
  instructions_sysvar = record {
    key = key 22;
    current = 1;
    instructions =
        record {
          program_id = key 21;
          accounts = [];
          input = encode (key attester) (replicate 64 0) (digest direction);
        }
        ∷ [];
  };
}

abbrev pub release_context : MoveContext
release_context = record {
  config = writable config_at;
  receipt = writable receipt_at;
  approval = writable (approval_at direction_release);
  vault = writable (key 11);
  destination = writable (key 14);
  mint = writable (key 10);
  vault_authority = writable authority_at;
  proofs = proofs;
  token_program = writable (key 20);
}

abbrev pub release_args : MovementArgs
release_args = record {
  destination = key 14;
  amount_commitment = key 41;
  zama_reservation = key 42;
  previous_operation = key 43;
  expiry = pos 1000;
  transfer_input = ciphertext;
}

abbrev pub at_ten : Call → Event ℕ
at_ten call = transaction (pos 10) call

-- Up to the first signature for the mint.
abbrev pub until_mint : List (Event ℕ)
until_mint =
    at_ten initialize_call
    ∷ at_ten lock_call
    ∷ at_ten (approves (signed_by 1 direction_mint) (request direction_mint))
    ∷ []

-- Up to the second signature for the release.
abbrev pub until_release : List (Event ℕ)
until_release =
    until_mint
    ++ (at_ten (approves (signed_by 2 direction_mint) (request direction_mint))
        ∷ at_ten (approves (signed_by 1 direction_release) (request direction_release))
        ∷ at_ten (approves (signed_by 3 direction_release) (request direction_release))
        ∷ [])

-- The whole operation, and a second attempt to release.
abbrev pub whole_operation : List (Event ℕ)
whole_operation =
    until_release
    ++ (at_ten (releases release_context release_args)
        ∷ at_ten (releases release_context release_args)
        ∷ [])
