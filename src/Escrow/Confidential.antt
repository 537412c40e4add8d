-- ===== src/Escrow/Confidential.antt =====
-- solana/programs/confidential-escrow/src/confidential.rs: token accounts, transfer data, and the
-- calls of the Token-2022 program.
pub mod Transfer
use canton_treasury_dvp.Base.{
  ℕ, Bool, true, false, ◌&&◌, not, Option, none, some, List, [], ◌∷◌, ◌++◌, Bytes, Result, ok,
  ◌>>=◌, ◌>>◌, require, ok_or, length, get_or, slice, to_le_bytes, bytes_eq, ◌==◌,
}
use canton_treasury_dvp.Escrow.Runtime.{
  Runtime, Instruction, AccountMeta, TokenAccount, Error, escrow, invocation_failed,
  wrong_token_program, wrong_mint, wrong_vault_authority, confidential_config,
  non_confidential_credits_enabled, wrong_transfer_instruction, inline_proofs_forbidden,
}

abbrev pub confidential_transfer_prefix : ℕ
confidential_transfer_prefix = 27

abbrev pub confidential_transfer_ix : ℕ
confidential_transfer_ix = 7

abbrev pub transfer_data_len : ℕ
transfer_data_len = 167

pub record TransferCiphertexts : Type 0 where
  pub decryptable : Bytes
  pub auditor_lo : Bytes
  pub auditor_hi : Bytes

unfoldable pub parse_transfer_ciphertexts : Bytes → Result Error TransferCiphertexts
parse_transfer_ciphertexts input = do
  require (length input == transfer_data_len) (escrow wrong_transfer_instruction)
  require (get_or input 164 0 == 0 && get_or input 165 0 == 0 && get_or input 166 0 == 0)
      (escrow inline_proofs_forbidden)
  ok (record {
    decryptable = slice 0 36 input;
    auditor_lo = slice 36 64 input;
    auditor_hi = slice 100 64 input;
  })

abbrev meta : Bytes → Bool → Bool → AccountMeta
meta key signer writable = record { pubkey = key; is_signer = signer; is_writable = writable }

-- The proof accounts of a transfer.
pub record ProofContexts : Type 0 where
  pub equality : Bytes
  pub validity : Bytes
  pub range : Bytes

module _ {T : Type 0} (rt : Runtime T) where
  unfoldable pub require_token_2022 : Bytes → Result Error (Unit {0})
  require_token_2022 program = require (bytes_eq program rt.token_2022) (escrow wrong_token_program)

  -- `if let Some(owner) = expected_owner`
  unfoldable pub require_owner : Option Bytes → TokenAccount → Result Error (Unit {0})
  require_owner none state = ok tt
  require_owner (some owner) state =
      require (bytes_eq state.owner owner) (escrow wrong_vault_authority)

  -- `if require_no_public_credits`
  unfoldable pub require_credits : Bool → Bool → Result Error (Unit {0})
  require_credits true allowed = require (not allowed) (escrow non_confidential_credits_enabled)
  require_credits false allowed = ok tt

  unfoldable pub require_confidential_account :
      Bytes → Bytes → Option Bytes → T → Bytes → Bool → Result Error (Unit {0})
  unfolding require_token_2022 require_owner require_credits
  require_confidential_account token_program mint owner tokens account no_public_credits = do
    require_token_2022 token_program
    require (bytes_eq (rt.account_owner tokens account) rt.token_2022) (escrow wrong_token_program)
    state ← ok_or (rt.unpack tokens account) (escrow confidential_config)
    require (bytes_eq state.mint mint) (escrow wrong_mint)
    require_owner owner state
    confidential ← ok_or state.confidential (escrow confidential_config)
    require_credits no_public_credits confidential.allow_non_confidential_credits

  -- The instruction that `confidential_transfer_cpi` builds.
  unfoldable pub transfer_instruction :
      Bytes → Bytes → Bytes → ProofContexts → Bytes → Bytes → Instruction
  transfer_instruction source mint destination proofs authority transfer_input = record {
    program_id = rt.token_2022;
    accounts =
        meta source false true
        ∷ meta mint false false
        ∷ meta destination false true
        ∷ meta proofs.equality false false
        ∷ meta proofs.validity false false
        ∷ meta proofs.range false false
        ∷ meta authority true false
        ∷ [];
    input = confidential_transfer_prefix ∷ confidential_transfer_ix ∷ transfer_input;
  }

  unfoldable pub confidential_transfer_cpi :
      Bytes → T → Instruction → Bytes → List Bytes → Result Error T
  unfolding require_token_2022
  confidential_transfer_cpi token_program tokens ix transfer_input seeds = do
    require_token_2022 token_program
    require (length transfer_input == transfer_data_len) (escrow wrong_transfer_instruction)
    ok_or (rt.invoke tokens ix seeds) invocation_failed

  unfoldable pub apply_pending_cpi :
      Bytes → T → Bytes → Bytes → ℕ → Bytes → List Bytes → Result Error T
  unfolding require_token_2022
  apply_pending_cpi token_program tokens account authority expected_counter new_decryptable seeds =
      require_token_2022 token_program
      >> ok_or
          (rt.invoke tokens
            (record {
              program_id = rt.token_2022;
              accounts = meta account false true ∷ meta authority true false ∷ [];
              input =
                  confidential_transfer_prefix
                  ∷ 8
                  ∷ (to_le_bytes 8 expected_counter ++ new_decryptable);
            })
            seeds)
          invocation_failed

  unfoldable pub pending_credit_counter : T → Bytes → Result Error ℕ
  pending_credit_counter tokens account = do
    state ← ok_or (rt.unpack tokens account) (escrow confidential_config)
    confidential ← ok_or state.confidential (escrow confidential_config)
    ok confidential.pending_balance_credit_counter
