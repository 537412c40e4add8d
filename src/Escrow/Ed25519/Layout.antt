-- ===== src/Escrow/Ed25519/Layout.antt =====
-- ed25519.rs: the layout of a signature instruction.
use mathlib.Core.List.{append_assoc, append-nil}
use canton_treasury_dvp.Base.{
  ℕ, ◌+◌, ◌≤◌, ◌≡◌, refl, false, [], ◌∷◌, ◌++◌, Bytes, ok, ◌⊎◌, length, get_or, drop, slice,
  length-take, length-drop, length-append, to_le_bytes, from_le_bytes, on_require, on_ok,
  ok-injective, subst, arith, take-append, drop-append, leb, ◌==◌, ==_iff,
}
use canton_treasury_dvp.Escrow.Ed25519.{
  Ed25519Approval, Offsets, read_offsets, check_offsets, parse_ed25519_instruction, ranges_overlap,
  header_len, offsets_len, current_ix, max_usize,
}

-- Two ranges have no byte in common.
abbrev pub Apart : ℕ → ℕ → ℕ → ℕ → Type 0
Apart a a_len b b_len = (a + a_len ≤ b) ⊎ (b + b_len ≤ a)

-- What the tests leave of an instruction of `len` bytes.
pub record IsWellPlaced (len : ℕ) (o : Offsets) : Type 0 where
  pub signature_here : o.signature_ix ≡ current_ix
  pub pubkey_here : o.pubkey_ix ≡ current_ix
  pub message_here : o.message_ix ≡ current_ix
  pub size : o.message_size ≡ 32
  pub pubkey_in : (16 ≤ o.pubkey_offset) × (o.pubkey_offset + 32 ≤ len)
  pub signature_in : (16 ≤ o.signature_offset) × (o.signature_offset + 64 ≤ len)
  pub message_in : (16 ≤ o.message_offset) × (o.message_offset + 32 ≤ len)
  pub pubkey_signature : Apart o.pubkey_offset 32 o.signature_offset 64
  pub pubkey_message : Apart o.pubkey_offset 32 o.message_offset 32
  pub signature_message : Apart o.signature_offset 64 o.message_offset 32

ranges-Apart :
    (a n b m : ℕ)
    → ranges_overlap a n b m ≡ false
    → a + n ≤ max_usize
    → b + m ≤ max_usize
    → Apart a n b m
unfolding ranges_overlap
ranges-Apart a n b m h ha hb = ground arith

check_offsets-IsWellPlaced :
    (len : ℕ) (o : Offsets) → check_offsets len o ≡ ok tt → IsWellPlaced len o
unfolding check_offsets
check_offsets-IsWellPlaced len o h = ground arith

Apart-overlap :
    (a n b m : ℕ)
    → Apart a n b m
    → a + n ≤ max_usize
    → b + m ≤ max_usize
    → ranges_overlap a n b m ≡ false
unfolding ranges_overlap
Apart-overlap a n b m h ha hb = ground arith

IsWellPlaced-check_offsets :
    (len : ℕ) (o : Offsets) → len ≤ max_usize → IsWellPlaced len o → check_offsets len o ≡ ok tt
unfolding check_offsets
IsWellPlaced-check_offsets len o small w = ground arith

-- One signature in the instruction's own bytes, and what is read from it.
pub record Accepts (input : Bytes) (a : Ed25519Approval) : Type 0 where
  pub count : get_or input 0 0 ≡ 1
  pub padding : get_or input 1 0 ≡ 0
  pub placed : IsWellPlaced (length input) (read_offsets input)
  pub attester : a.attester ≡ slice (read_offsets input).pubkey_offset 32 input
  pub digest : a.digest ≡ slice (read_offsets input).message_offset 32 input
  pub attester_size : length a.attester ≡ 32
  pub digest_size : length a.digest ≡ 32

length-slice : (at n : ℕ) (input : Bytes) → at + n ≤ length input → length (slice at n input) ≡ n
length-slice at n input h = omega (arith, length-take n (drop at input), length-drop at input)

-- Whatever the bytes of an instruction, if it is accepted then it has the layout that `Accepts`
-- describes: one signature, all ranges in this instruction, behind the offsets and disjoint, and
-- the result is the key and the message of these ranges.
pub parse_ed25519_instruction-Accepts :
    (input : Bytes) (a : Ed25519Approval) → parse_ed25519_instruction input ≡ ok a → Accepts input a
unfolding parse_ed25519_instruction
parse_ed25519_instruction-Accepts input a h =
    on_require (leb (header_len + offsets_len) (length input)) _ _ h λ long h1.
      on_require (get_or input 0 0 == 1) _ _ h1 λ count h2.
        on_require (get_or input 1 0 == 0) _ _ h2 λ padding h3.
          on_ok (check_offsets (length input) (read_offsets input)) _ h3 λ _ checked h4.
            let placed = check_offsets-IsWellPlaced (length input) (read_offsets input) checked in
            subst (Accepts input) (ok-injective h4) (record {
              count = (==_iff _ _).0 count;
              padding = (==_iff _ _).0 padding;
              placed = placed;
              attester = refl;
              digest = refl;
              attester_size =
                  length-slice (read_offsets input).pubkey_offset 32 input placed.pubkey_in.1;
              digest_size =
                  length-slice (read_offsets input).message_offset 32 input placed.message_in.1;
            })

-- The well-formed instruction of the program's tests: the key, the signature and the message one
-- after another.
unfoldable pub encode : Bytes → Bytes → Bytes → Bytes
encode pubkey signature digest =
    1
    ∷ 0
    ∷ (to_le_bytes 2 48
        ++ (to_le_bytes 2 current_ix
            ++ (to_le_bytes 2 16
                ++ (to_le_bytes 2 current_ix
                    ++ (to_le_bytes 2 112
                        ++ (to_le_bytes 2 32
                            ++ (to_le_bytes 2 current_ix ++ (pubkey ++ (signature ++ digest)))))))))

abbrev encoded_offsets : Offsets
encoded_offsets = record {
  signature_offset = 48;
  signature_ix = current_ix;
  pubkey_offset = 16;
  pubkey_ix = current_ix;
  message_offset = 112;
  message_size = 32;
  message_ix = current_ix;
}

read_offsets-encode : (p s d : Bytes) → read_offsets (encode p s d) ≡ encoded_offsets
unfolding read_offsets encode to_le_bytes from_le_bytes
read_offsets-encode p s d = refl

check_offsets-encoded : check_offsets 144 encoded_offsets ≡ ok tt
unfolding check_offsets
check_offsets-encoded = refl

length-encode :
    (p s d : Bytes) → length p ≡ 32 → length s ≡ 64 → length d ≡ 32 → length (encode p s d) ≡ 144
unfolding encode to_le_bytes
length-encode p s d hp hs hd = omega (arith, length-append p (s ++ d), length-append s d)

encode-pubkey : (p s d : Bytes) → length p ≡ 32 → slice 16 32 (encode p s d) ≡ p
unfolding encode to_le_bytes
encode-pubkey p s d hp = take-append 32 p (s ++ d) hp

encode-digest :
    (p s d : Bytes)
    → length p ≡ 32
    → length s ≡ 64
    → length d ≡ 32
    → slice 112 32 (encode p s d) ≡ d
unfolding encode to_le_bytes
encode-digest p s d hp hs hd =
    let rest = drop-append 96 (p ++ s) d (omega (arith, length-append p s)) in
    let whole = take-append 32 d [] hd in rw (← append_assoc p s d, rest) (rw append-nil at whole)

encode-head : (p s d : Bytes) → (get_or (encode p s d) 0 0 ≡ 1) × (get_or (encode p s d) 1 0 ≡ 0)
unfolding encode
encode-head p s d = (refl, refl)

-- The well-formed instruction for a key of 32, a signature of 64 and a digest of 32 bytes is
-- accepted, and read back as that key and that digest.
pub parse_ed25519_instruction-encode :
    (pubkey signature digest : Bytes)
    → length pubkey ≡ 32
    → length signature ≡ 64
    → length digest ≡ 32
    → parse_ed25519_instruction (encode pubkey signature digest)
      ≡ ok (record { attester = pubkey; digest = digest })
unfolding parse_ed25519_instruction
parse_ed25519_instruction-encode p s d hp hs hd = rw (
  length-encode p s d hp hs hd,
  (encode-head p s d).0,
  (encode-head p s d).1,
  read_offsets-encode p s d,
  check_offsets-encoded,
  encode-pubkey p s d hp,
  encode-digest p s d hp hs hd,
)
