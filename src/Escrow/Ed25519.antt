-- ===== src/Escrow/Ed25519.antt =====
-- solana/programs/confidential-escrow/src/ed25519.rs: the signature that precedes an approval.
pub mod Layout
use canton_treasury_dvp.Base.{
  ℕ, ◌+◌, ◌-◌, ◌^◌, Bool, true, false, ◌&&◌, not, List, [], ◌∷◌, Bytes, Result, ok, err, ◌>>=◌,
  ◌>>◌, require, length, get_or, drop, slice, from_le_bytes, bytes_eq, ltb, leb, ◌==◌,
  if◌then◌else◌,
}
use canton_treasury_dvp.Escrow.Runtime.{
  Runtime, Instruction, Error, escrow, missing_ed25519, invalid_ed25519_layout, instruction_index,
}

abbrev pub current_ix : ℕ
current_ix = 2 ^ 16 - 1

abbrev pub pubkey_len : ℕ
pubkey_len = 32

abbrev pub signature_len : ℕ
signature_len = 64

abbrev pub digest_len : ℕ
digest_len = 32

abbrev pub header_len : ℕ
header_len = 2

abbrev pub offsets_len : ℕ
offsets_len = 14

pub record Ed25519Approval : Type 0 where
  pub attester : Bytes
  pub digest : Bytes

abbrev pub max_usize : ℕ
max_usize = 2 ^ 64 - 1

-- `checked_add` fails past `usize::MAX`.
unfoldable pub range_in_data : ℕ → ℕ → ℕ → Bool
range_in_data len offset size = leb (offset + size) max_usize && leb (offset + size) len

saturating_add : ℕ → ℕ → ℕ
saturating_add a b = if leb (a + b) max_usize then a + b else max_usize

unfoldable pub ranges_overlap : ℕ → ℕ → ℕ → ℕ → Bool
unfolding saturating_add
ranges_overlap a a_len b b_len = ltb a (saturating_add b b_len) && ltb b (saturating_add a a_len)

-- `u16::from_le_bytes(input[at..at + 2])`
abbrev pub read_u16 : Bytes → ℕ → ℕ
read_u16 input at = from_le_bytes (slice at 2 input)

-- The seven numbers behind the count and the padding byte.
pub record Offsets : Type 0 where
  pub signature_offset : ℕ
  pub signature_ix : ℕ
  pub pubkey_offset : ℕ
  pub pubkey_ix : ℕ
  pub message_offset : ℕ
  pub message_size : ℕ
  pub message_ix : ℕ

unfoldable pub read_offsets : Bytes → Offsets
read_offsets input = record {
  signature_offset = read_u16 input 2;
  signature_ix = read_u16 input 4;
  pubkey_offset = read_u16 input 6;
  pubkey_ix = read_u16 input 8;
  message_offset = read_u16 input 10;
  message_size = read_u16 input 12;
  message_ix = read_u16 input 14;
}

abbrev layout : Error
layout = escrow invalid_ed25519_layout

-- The tests on the offsets, for an instruction of `len` bytes.
unfoldable pub check_offsets : ℕ → Offsets → Result Error (Unit {0})
unfolding range_in_data ranges_overlap
check_offsets len o = do
  require (o.signature_ix == current_ix && o.pubkey_ix == current_ix && o.message_ix == current_ix)
      layout
  require (o.message_size == digest_len) layout
  require (range_in_data len o.pubkey_offset pubkey_len) layout
  require (range_in_data len o.signature_offset signature_len) layout
  require (range_in_data len o.message_offset digest_len) layout
  require (leb (header_len + offsets_len) o.pubkey_offset) layout
  require (leb (header_len + offsets_len) o.signature_offset) layout
  require (leb (header_len + offsets_len) o.message_offset) layout
  require (not (ranges_overlap o.pubkey_offset pubkey_len o.signature_offset signature_len)) layout
  require (not (ranges_overlap o.pubkey_offset pubkey_len o.message_offset digest_len)) layout
  require (not (ranges_overlap o.signature_offset signature_len o.message_offset digest_len)) layout

unfoldable pub parse_ed25519_instruction : Bytes → Result Error Ed25519Approval
parse_ed25519_instruction input = do
  require (leb (header_len + offsets_len) (length input)) layout
  require (get_or input 0 0 == 1) layout
  require (get_or input 1 0 == 0) layout
  let o = read_offsets input
  check_offsets (length input) o
  ok (record {
    attester = slice o.pubkey_offset pubkey_len input;
    digest = slice o.message_offset digest_len input;
  })

-- The instructions sysvar: the transaction's instructions and the index of the running one.
pub record Sysvar : Type 0 where
  pub key : Bytes
  pub current : ℕ
  pub instructions : List Instruction

-- `load_instruction_at_checked`
abbrev pub load_instruction : List Instruction → ℕ → Result Error Instruction
load_instruction is i = elim (drop i is) [ [] ↦ err instruction_index | x ∷ _ ↦ ok x ]

module _ {T : Type 0} (rt : Runtime T) where
  unfoldable pub read_preceding_ed25519 : Sysvar → Result Error Ed25519Approval
  unfolding parse_ed25519_instruction
  read_preceding_ed25519 s = do
    require (bytes_eq s.key rt.instructions_id) (escrow missing_ed25519)
    require (ltb 0 s.current) (escrow missing_ed25519)
    prior ← load_instruction s.instructions (s.current - 1)
    require (bytes_eq prior.program_id rt.ed25519_program) (escrow missing_ed25519)
    parse_ed25519_instruction prior.input
