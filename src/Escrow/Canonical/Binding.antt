-- ===== src/Escrow/Canonical/Binding.antt =====
-- What a digest or a commitment determines, for a hash without collisions.
use mathlib.Core.List.{append-nil}
use canton_treasury_dvp.Base.{
  ℕ, ◌<◌, ◌^◌, ◌≡◌, refl, ap, List, [], ◌∷◌, ◌∙◌, sym, arith, Bytes, length, ℤ, IsI64, to_u64,
  from_u64, from_u64-to_u64, to_u64-lt, to_le_bytes, from_le_bytes, length-to_le_bytes,
  from_le_bytes-to_le_bytes, append_cut,
}
use canton_treasury_dvp.Escrow.Canonical.{
  Operation, operation_parts, concat, amount_domain, proof_domain, amount_commitment,
  proof_commitment, operation_digest,
}

-- SHA-256 is taken to have no collision among the messages hashed.
abbrev pub IsCollisionFree : (Bytes → Bytes) → Type 0
IsCollisionFree hash = (x y : Bytes) → hash x ≡ hash y → x ≡ y

-- The lists of parts have the same lengths, part by part.
abbrev pub SameShape : List Bytes → List Bytes → Type 0
SameShape [] [] = Unit
SameShape (p ∷ ps) (q ∷ qs) = (length p ≡ length q) × SameShape ps qs
SameShape _ _ = ⊥

-- Parts of given lengths are determined by their concatenation.
pub concat_injective : (ps qs : List Bytes) → SameShape ps qs → concat ps ≡ concat qs → ps ≡ qs
concat_injective [] [] h e = refl
concat_injective [] (q ∷ qs) h e = absurd h
concat_injective (p ∷ ps) [] h e = absurd h
concat_injective (p ∷ ps) (q ∷ qs) h e =
    let cut = append_cut (length q) p q (concat ps) (concat qs) h.0 refl e in
    cc (cut.0, concat_injective ps qs h.1 cut.1)

to_le_bytes_u64_injective :
    (a b : ℕ) → a < 2 ^ 64 → b < 2 ^ 64 → to_le_bytes 8 a ≡ to_le_bytes 8 b → a ≡ b
to_le_bytes_u64_injective a b ha hb e =
    sym (from_le_bytes-to_le_bytes 8 a ha) ∙ ap from_le_bytes e ∙ from_le_bytes-to_le_bytes 8 b hb

expiry_injective :
    (a b : ℤ) → IsI64 a → IsI64 b → to_le_bytes 8 (to_u64 a) ≡ to_le_bytes 8 (to_u64 b) → a ≡ b
expiry_injective a b ha hb e =
    sym (from_u64-to_u64 a ha)
    ∙ ap from_u64 (to_le_bytes_u64_injective (to_u64 a) (to_u64 b) (to_u64-lt a) (to_u64-lt b) e)
    ∙ from_u64-to_u64 b hb

-- The sizes that the types `[u8; 32]`, `Pubkey` and `i64` give.
pub record IsSized (o : Operation) : Type 0 where
  pub chain_id : length o.chain_id ≡ 32
  pub program_id : length o.program_id ≡ 32
  pub config : length o.config ≡ 32
  pub operation : length o.operation ≡ 32
  pub lock_receipt : length o.lock_receipt ≡ 32
  pub destination : length o.destination ≡ 32
  pub amount_commitment : length o.amount_commitment ≡ 32
  pub zama_reservation : length o.zama_reservation ≡ 32
  pub previous_operation : length o.previous_operation ≡ 32
  pub expiry : IsI64 o.expiry
  pub proof_commitment : length o.proof_commitment ≡ 32

module _ (hash : Bytes → Bytes) (free : IsCollisionFree hash) where
  -- With a hash that has no collisions, two operations with fields of the sizes of their types
  -- have one digest only if all their fields are equal: chain, program, configuration, operation,
  -- direction, receipt, destination, amount commitment, reservation, previous operation, expiry
  -- and proof commitment.
  pub operation_digest_binds :
      (o p : Operation)
      → IsSized o
      → IsSized p
      → operation_digest hash o ≡ operation_digest hash p
      → o ≡ p
  unfolding operation_digest
  operation_digest_binds o p so sp e =
      let shape : SameShape (operation_parts o) (operation_parts p) =
        omega
          (arith, length-to_le_bytes 8 (to_u64 o.expiry), length-to_le_bytes 8 (to_u64 p.expiry)) in
      let parts = concat_injective (operation_parts o) (operation_parts p) shape (free _ _ e) in
      let times = expiry_injective o.expiry p.expiry so.expiry sp.expiry in
      ground (arith, parts, times)

  -- With a hash that has no collisions, an amount commitment determines the amount, a `u64`, and
  -- the blinding.
  pub amount_commitment_binds :
      (a b : ℕ) (r s : Bytes)
      → a < 2 ^ 64
      → b < 2 ^ 64
      → amount_commitment hash a r ≡ amount_commitment hash b s
      → (a ≡ b) × (r ≡ s)
  unfolding amount_commitment
  amount_commitment_binds a b r s ha hb e =
      let cut =
        append_cut (length amount_domain) amount_domain amount_domain _ _ refl refl (free _ _ e) in
      let cut' =
        append_cut 8 (to_le_bytes 8 a) (to_le_bytes 8 b) _ _ (length-to_le_bytes 8 a)
          (length-to_le_bytes 8 b) cut.1 in
      (to_le_bytes_u64_injective a b ha hb cut'.0, simp append-nil at cut'.1)

  -- With a hash that has no collisions, a proof commitment determines the two auditor ciphertexts,
  -- the decryptable balance and the three proof contexts, at the sizes of their types.
  pub proof_commitment_binds :
      (d d' lo lo' hi hi' eq eq' va va' ra ra' : Bytes)
      → SameShape (d ∷ lo ∷ hi ∷ eq ∷ va ∷ ra ∷ []) (d' ∷ lo' ∷ hi' ∷ eq' ∷ va' ∷ ra' ∷ [])
      → proof_commitment hash d lo hi eq va ra ≡ proof_commitment hash d' lo' hi' eq' va' ra'
      → ◌≡◌ {A = List Bytes}
          (d ∷ lo ∷ hi ∷ eq ∷ va ∷ ra ∷ [])
          (d' ∷ lo' ∷ hi' ∷ eq' ∷ va' ∷ ra' ∷ [])
  unfolding proof_commitment
  proof_commitment_binds d d' lo lo' hi hi' eq eq' va va' ra ra' shape e =
      let cut =
        append_cut (length proof_domain) proof_domain proof_domain _ _ refl refl (free _ _ e) in
      concat_injective _ _ shape cut.1
