-- ===== src/Escrow/Confidential/Transfer.antt =====
-- confidential.rs: the transfer data as a packing of its ciphertexts.
use canton_treasury_dvp.Base.{
  ℕ, ◌+◌, ◌≡◌, sym, ◌&&◌, [], ◌∷◌, ◌++◌, Bytes, ok, length, get_or, take, drop, slice, length-take,
  length-drop, take-append-drop, drop-drop, get_or-drop, on_require, ok-injective, subst, arith,
  ◌==◌, ==_iff, &&_true, ap, ◌∙◌,
}
use canton_treasury_dvp.Escrow.Confidential.{
  TransferCiphertexts, parse_transfer_ciphertexts, transfer_data_len,
}

-- `n` more bytes of a list.
drop-slice : (at n k : ℕ) (xs : Bytes) → at + n ≡ k → drop at xs ≡ slice at n xs ++ drop k xs
drop-slice at n k xs h =
    sym (take-append-drop n (drop at xs)) ∙ ap (◌++◌ (take n (drop at xs))) (drop-drop at n k xs h)

last_three :
    (xs : Bytes)
    → length xs ≡ 3
    → get_or xs 0 0 ≡ 0
    → get_or xs 1 0 ≡ 0
    → get_or xs 2 0 ≡ 0
    → xs ≡ 0 ∷ 0 ∷ 0 ∷ []
last_three [] h a b c = absurd (omega arith)
last_three (x ∷ []) h a b c = absurd (omega arith)
last_three (x ∷ y ∷ []) h a b c = absurd (omega arith)
last_three (x ∷ y ∷ z ∷ []) h a b c = cc
last_three (x ∷ y ∷ z ∷ w ∷ r) h a b c = absurd (omega arith)

-- Transfer data as the three parts of their sizes and three zero bytes.
pub record Packs (input : Bytes) (t : TransferCiphertexts) : Type 0 where
  pub whole : input ≡ t.decryptable ++ (t.auditor_lo ++ (t.auditor_hi ++ 0 ∷ 0 ∷ 0 ∷ []))
  pub decryptable_size : length t.decryptable ≡ 36
  pub auditor_lo_size : length t.auditor_lo ≡ 64
  pub auditor_hi_size : length t.auditor_hi ≡ 64

packed :
    (input : Bytes)
    → length input ≡ 167
    → get_or input 164 0 ≡ 0
    → get_or input 165 0 ≡ 0
    → get_or input 166 0 ≡ 0
    → Packs input (record {
      decryptable = slice 0 36 input;
      auditor_lo = slice 36 64 input;
      auditor_hi = slice 100 64 input;
    })
packed input size z1 z2 z3 =
    let tail_size : length (drop 164 input) ≡ 3 = omega (arith, length-drop 164 input) in
    let tail =
      last_three (drop 164 input) tail_size (get_or-drop 164 0 164 input 0 (omega arith) ∙ z1)
        (get_or-drop 164 1 165 input 0 (omega arith) ∙ z2)
        (get_or-drop 164 2 166 input 0 (omega arith) ∙ z3) in
    record {
      whole =
          drop-slice 0 36 36 input (omega arith)
          ∙ ap (◌++◌ (slice 0 36 input)) (
              drop-slice 36 64 100 input (omega arith)
              ∙ ap (◌++◌ (slice 36 64 input)) (
                  drop-slice 100 64 164 input (omega arith) ∙ ap (◌++◌ (slice 100 64 input)) tail));
      decryptable_size = omega (arith, length-take 36 input);
      auditor_lo_size = omega (arith, length-take 64 (drop 36 input), length-drop 36 input);
      auditor_hi_size = omega (arith, length-take 64 (drop 100 input), length-drop 100 input);
    }

-- Accepted transfer data is exactly its three ciphertext parts and three zero bytes, so that it
-- carries no inline proof and nothing besides the parts that the commitment covers.
pub parse_transfer_ciphertexts-Packs :
    (input : Bytes) (t : TransferCiphertexts)
    → parse_transfer_ciphertexts input ≡ ok t
    → Packs input t
unfolding parse_transfer_ciphertexts
parse_transfer_ciphertexts-Packs input t h =
    on_require (length input == transfer_data_len) _ _ h λ size h1.
      on_require (get_or input 164 0 == 0 && get_or input 165 0 == 0 && get_or input 166 0 == 0) _ _
        h1
        λ zeroes h2.
          let first = &&_true _ _ zeroes in
          let rest = &&_true _ _ first.0 in
          subst (Packs input) (ok-injective h2) (
            packed input ((==_iff (length input) 167).0 size) ((==_iff _ _).0 rest.0)
              ((==_iff _ _).0 rest.1) ((==_iff _ _).0 first.1))
