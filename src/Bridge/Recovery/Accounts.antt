-- ===== src/Bridge/Recovery/Accounts.antt =====
-- bridge/src/recovery.rs: the account bytes that the workflow decodes.
use canton_treasury_dvp.Base.{
  zero, suc, ◌==◌, ℕ, ◌≡◌, refl, Bool, true, false, not, [], ◌∷◌, ◌++◌, Bytes, ok, length,
  length-append, length-to_le_bytes, to_le_bytes, from_le_bytes, from_le_bytes-to_le_bytes, to_u64,
  to_u64-lt, from_u64, from_u64-to_u64, IsI64, take, drop, get_or, get_or-drop, take-append,
  drop-append, drop-drop, ltb, ap, ◌∙◌, sym, arith,
}
use canton_treasury_dvp.Escrow.State.{OperationApproval}
use canton_treasury_dvp.Bridge.Recovery.{decode_approval}
use canton_treasury_dvp.Bridge.Recovery.Agreement.{read_approval}

abbrev pub bit : Bool → ℕ
bit true = 1
bit false = 0

-- The bytes of an approval account: Borsh writes the fields in their order, behind the
-- discriminator.
abbrev pub approval_account : Bytes → OperationApproval → Bytes
approval_account discriminator a =
    (discriminator ++ (a.operation ++ (a.direction ∷ [])))
    ++ (a.digest ++ (a.signer_bitmap ∷ bit a.consumed ∷ a.bump ∷ to_le_bytes 8 (to_u64 a.expiry)))

-- What is decoded, from where the fields stand.
decode_fields :
    (bytes digest : Bytes) (bitmap used bump : ℕ) (expiry : Bytes)
    → ltb (length bytes) 84 ≡ false
    → take 32 (drop 41 bytes) ≡ digest
    → drop 73 bytes ≡ bitmap ∷ used ∷ bump ∷ expiry
    → take 8 expiry ≡ expiry
    → decode_approval bytes
      ≡ ok (record {
        signer_bitmap = bitmap;
        consumed = not (used == 0);
        expiry = from_u64 (from_le_bytes expiry);
        digest = digest;
      })
unfolding decode_approval
decode_fields bytes digest bitmap used bump expiry long e_digest e_tail whole =
    let at_73 : get_or bytes 73 0 ≡ bitmap =
      sym (get_or-drop 73 0 73 bytes 0 refl) ∙ ap (λ l. get_or l 0 0) e_tail in
    let at_74 : get_or bytes 74 0 ≡ used =
      sym (get_or-drop 73 1 74 bytes 0 refl) ∙ ap (λ l. get_or l 1 0) e_tail in
    let at_76 : take 8 (drop 76 bytes) ≡ expiry =
      ap (take 8) (sym (drop-drop 73 3 76 bytes refl) ∙ ap (drop 3) e_tail) ∙ whole in
    rw (long, e_digest, at_73, at_74, at_76) refl

take_all : (n : ℕ) (bytes : Bytes) → length bytes ≡ n → take n bytes ≡ bytes
take_all zero [] h = refl
take_all zero (x ∷ bytes) h = absurd (omega arith)
take_all (suc n) [] h = refl
take_all (suc n) (x ∷ bytes) h = ap (◌∷◌ x) (take_all n bytes (omega arith))

bit-is_set : (b : Bool) → not (bit b == 0) ≡ b
bit-is_set true = refl
bit-is_set false = refl

-- The workflow reads an approval account back: from the account's bytes it decodes the approval's
-- bitmap, use, expiry and digest, where the discriminator has 8 bytes, the keys have 32 and the
-- expiry is an `i64`.
pub decode_approval-approval_account :
    (discriminator : Bytes) (a : OperationApproval)
    → length discriminator ≡ 8
    → length a.operation ≡ 32
    → length a.digest ≡ 32
    → IsI64 a.expiry
    → decode_approval (approval_account discriminator a) ≡ ok (read_approval a)
decode_approval-approval_account discriminator a hd ho hg he =
    let expiry = to_le_bytes 8 (to_u64 a.expiry) in
    let tail : Bytes = a.signer_bitmap ∷ bit a.consumed ∷ a.bump ∷ expiry in
    let front = discriminator ++ (a.operation ++ (a.direction ∷ [])) in
    let length_front : length front ≡ 41 =
      rw
        (
          length-append discriminator (a.operation ++ (a.direction ∷ [])),
          length-append a.operation (a.direction ∷ []),
        )
        (omega arith) in
    let rest : drop 41 (front ++ (a.digest ++ tail)) ≡ a.digest ++ tail =
      drop-append 41 front (a.digest ++ tail) length_front in
    let length_expiry : length expiry ≡ 8 = length-to_le_bytes 8 (to_u64 a.expiry) in
    let long : ltb (length (front ++ (a.digest ++ tail))) 84 ≡ false =
      rw (length-append front (a.digest ++ tail), length-append a.digest tail)
        (ground (arith, length_front, length_expiry)) in
    decode_fields (front ++ (a.digest ++ tail)) a.digest a.signer_bitmap (bit a.consumed) a.bump
      expiry long (ap (take 32) rest ∙ take-append 32 a.digest tail hg)
      (sym (drop-drop 41 32 73 (front ++ (a.digest ++ tail)) refl)
        ∙ ap (drop 32) rest
        ∙ drop-append 32 a.digest tail hg)
      (take_all 8 expiry length_expiry)
    ∙ ap ok (
        rw
          (
            bit-is_set a.consumed,
            from_le_bytes-to_le_bytes 8 (to_u64 a.expiry) (omega (arith, to_u64-lt a.expiry)),
            from_u64-to_u64 a.expiry he,
          )
          refl)
