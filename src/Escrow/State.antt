-- ===== src/Escrow/State.antt =====
-- solana/programs/confidential-escrow/src/state.rs: the accounts that the program owns.
pub mod Quorum
use Prim.Native.Nat.{bit_and}
use canton_treasury_dvp.Base.{
  ℕ, zero, suc, ◌+◌, ◌/◌, ◌%◌, Bool, Option, none, some, List, [], ◌∷◌, Bytes, codes, bytes_eq, ℤ,
  if◌then◌else◌,
}

abbrev pub config_seed : Bytes
config_seed = codes "bridge-config"

abbrev pub vault_authority_seed : Bytes
vault_authority_seed = codes "vault-authority"

abbrev pub receipt_seed : Bytes
receipt_seed = codes "receipt"

abbrev pub approval_seed : Bytes
approval_seed = codes "approval"

-- `[Pubkey; 3]`
pub record Attesters : Type 0 where
  pub first : Bytes
  pub second : Bytes
  pub third : Bytes

pub record BridgeConfig : Type 0 where
  pub chain_id : Bytes
  pub token_program : Bytes
  pub mint : Bytes
  pub vault : Bytes
  pub attesters : Attesters
  pub bump : ℕ
  pub vault_authority_bump : ℕ

pub record LockReceipt : Type 0 where
  pub operation : Bytes
  pub destination : Bytes
  pub amount_commitment : Bytes
  pub zama_reservation : Bytes
  pub previous_operation : Bytes
  pub expiry : ℤ
  pub lock_proof_commitment : Bytes
  pub status : ℕ
  pub bump : ℕ

pub record OperationApproval : Type 0 where
  pub operation : Bytes
  pub direction : ℕ
  pub digest : Bytes
  pub signer_bitmap : ℕ
  pub consumed : Bool
  pub bump : ℕ
  pub expiry : ℤ

-- An account by its discriminator.
pub data Account : Type 0 where
  config : BridgeConfig → Account
  receipt : LockReceipt → Account
  approval : OperationApproval → Account

unfoldable pub attester_index : BridgeConfig → Bytes → Option ℕ
attester_index c key =
    if bytes_eq c.attesters.first key
    then some 0
    else if bytes_eq c.attesters.second key
    then some 1
    else if bytes_eq c.attesters.third key
    then some 2
    else none

-- `u8::count_ones`, over the low `width` bits.
unfoldable pub count_ones : ℕ → ℕ → ℕ
count_ones zero n = 0
count_ones (suc width) n = n % 2 + count_ones width (n / 2)

unfoldable pub distinct_signers : OperationApproval → ℕ
unfolding count_ones
distinct_signers a = count_ones 8 (bit_and a.signer_bitmap 7)
