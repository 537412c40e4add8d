-- ===== src/Bridge/Recovery/Agreement.antt =====
-- bridge/src/recovery.rs and handlers.rs: the attestations that the workflow sends, against the
-- tests that the program makes of an approval.
use Prim.Native.Nat.{bit_and}
use canton_treasury_dvp.Base.{
  ℕ, ◌^◌, ◌≡◌, refl, Bool, true, false, ◌&&◌, ◌||◌, some, Bytes, bytes_eq, Result, ok, err, ◌>>=◌,
  is_ok, ◌==◌, ==_iff, arith, Bool-cases, inl, inr, ok-injective, ltb_ℤ, eqb_ℤ, ℤ, ap, sym, ◌∙◌,
  &&_true, bytes_eq_iff,
}
use canton_treasury_dvp.Escrow.State.{OperationApproval}
use canton_treasury_dvp.Escrow.Accounts.{zero_digest}
use canton_treasury_dvp.Escrow.Requests.{ApproveArgs, open_approval, add_signer, fresh_approval}
use canton_treasury_dvp.Bridge.Recovery.{
  OnChainApproval, RecoveryError, attesters_needed, approval_already_consumed, digest_mismatch,
}

-- What the workflow reads of an approval account.
abbrev pub read_approval : OperationApproval → OnChainApproval
read_approval a = record {
  signer_bitmap = a.signer_bitmap;
  consumed = a.consumed;
  expiry = a.expiry;
  digest = a.digest;
}

-- Whether the tests of the approval, which are a part of `approve_operation`, let the signature of
-- attester `index` be added.
abbrev pub is_accepted : OperationApproval → ApproveArgs → Bytes → ℤ → ℕ → ℕ → Bool
is_accepted a args digest now bump index =
    is_ok (open_approval a args digest now bump >>= (λ o. add_signer o index))

err_ne_ok :
    (e : RecoveryError) (b : Bool × Bool)
    → ◌≡◌ {A = Result RecoveryError (Bool × Bool)} (err e) (ok b)
    → ⊥
err_ne_ok e b h = cc

add_signer-is_ok :
    (a : OperationApproval) (index : ℕ)
    → is_ok (add_signer a index) ≡ (bit_and a.signer_bitmap (2 ^ index) == 0)
unfolding add_signer
add_signer-is_ok a index = elim (Bool-cases (bit_and a.signer_bitmap (2 ^ index) == 0)) [
  | inl e ↦ rw e refl
  | inr e ↦ rw e refl
]

abbrev is_blank : OperationApproval → Bool
is_blank a = a.signer_bitmap == 0 && bytes_eq a.digest zero_digest

module _ (a : OperationApproval) (args : ApproveArgs) (digest : Bytes) (now : ℤ) (bump : ℕ)
    (unused : a.consumed ≡ false) where
  opens_blank :
      is_blank a ≡ true
      → open_approval a args digest now bump ≡ ok (fresh_approval args digest bump)
  unfolding open_approval
  opens_blank blank = rw (blank, unused) refl

  opens_expired :
      ltb_ℤ now a.expiry ≡ false
      → open_approval a args digest now bump ≡ ok (fresh_approval args digest bump)
  unfolding open_approval
  opens_expired late = elim (Bool-cases (is_blank a)) [
    | inl blank ↦ opens_blank blank
    | inr taken ↦ rw (taken, late, unused) refl
  ]

  opens_live :
      is_blank a ≡ false
      → ltb_ℤ now a.expiry ≡ true
      → bytes_eq a.digest digest ≡ true
      → eqb_ℤ a.expiry args.expiry ≡ true
      → (a.direction == args.direction) ≡ true
      → bytes_eq a.operation args.operation ≡ true
      → open_approval a args digest now bump ≡ ok a
  unfolding open_approval
  opens_live taken live same_digest same_expiry same_direction same_operation =
      rw (taken, live, unused, same_digest, same_expiry, same_direction, same_operation) refl

  fresh_accepts :
      (index : ℕ)
      → (bit_and 0 (2 ^ index) == 0) ≡ true
      → open_approval a args digest now bump ≡ ok (fresh_approval args digest bump)
      → is_accepted a args digest now bump index ≡ true
  unfolding fresh_approval
  fresh_accepts index free opened =
      rw opened (add_signer-is_ok (fresh_approval args digest bump) index ∙ free)

  live_accepts :
      (index : ℕ)
      → (bit_and 0 (2 ^ index) == 0) ≡ true
      → ltb_ℤ now a.expiry ≡ true
      → bytes_eq a.digest digest ≡ true
      → eqb_ℤ a.expiry args.expiry ≡ true
      → (a.direction == args.direction) ≡ true
      → bytes_eq a.operation args.operation ≡ true
      → is_accepted a args digest now bump index ≡ (bit_and a.signer_bitmap (2 ^ index) == 0)
  live_accepts index free live same_digest same_expiry same_direction same_operation =
      elim (Bool-cases (is_blank a)) [
        | inl blank ↦
            let zeroes : a.signer_bitmap ≡ 0 =
              (==_iff a.signer_bitmap 0).0 (&&_true (a.signer_bitmap == 0) _ blank).0 in
            fresh_accepts index free (opens_blank blank)
            ∙ sym (ap (λ b. bit_and b (2 ^ index) == 0) zeroes ∙ free)
        | inr taken ↦
            rw (opens_live taken live same_digest same_expiry same_direction same_operation)
              (add_signer-is_ok a index)
      ]

-- For an approval account that was made for the same operation and direction, on a release or
-- before it expires: the workflow sends the signature of its first attester, and of its second,
-- exactly if the approval's tests let it be added.
pub attesters_needed-is_accepted :
    (a : OperationApproval) (args : ApproveArgs) (digest : Bytes) (now : ℤ) (bump : ℕ)
    (replace_expired : Bool) (needed : Bool × Bool)
    → (replace_expired || ltb_ℤ now a.expiry) ≡ true
    → a.direction ≡ args.direction
    → a.operation ≡ args.operation
    → attesters_needed (some (read_approval a)) digest args.expiry now replace_expired ≡ ok needed
    → (is_accepted a args digest now bump 0 ≡ needed.0)
      × (is_accepted a args digest now bump 1 ≡ needed.1)
unfolding attesters_needed
attesters_needed-is_accepted a args digest now bump replace_expired needed in_time dir op h =
    let same_direction : (a.direction == args.direction) ≡ true =
      (==_iff a.direction args.direction).1 dir in
    let same_operation : bytes_eq a.operation args.operation ≡ true =
      (bytes_eq_iff a.operation args.operation).1 op in
    elim (Bool-cases a.consumed) [
      | inl used ↦ absurd (err_ne_ok approval_already_consumed needed (rw used at h))
      | inr unused ↦ elim (Bool-cases (ltb_ℤ now a.expiry)) [
        | inr late ↦
            let replaced : replace_expired ≡ true = ground (arith, in_time, late) in
            let both : (true, true) ≡ needed = ok-injective (rw (unused, late, replaced) at h) in
            let opened = opens_expired a args digest now bump unused late in
            (
              fresh_accepts a args digest now bump unused 0 refl opened ∙ ap (λ p. p.0) both,
              fresh_accepts a args digest now bump unused 1 refl opened ∙ ap (λ p. p.1) both,
            )
        | inl live ↦ elim (Bool-cases (bytes_eq a.digest digest)) [
          | inr other ↦ absurd (err_ne_ok digest_mismatch needed (rw (unused, live, other) at h))
          | inl same_digest ↦ elim (Bool-cases (eqb_ℤ a.expiry args.expiry)) [
            | inr other ↦
                absurd
                  (err_ne_ok digest_mismatch needed (rw (unused, live, same_digest, other) at h))
            | inl same_expiry ↦
                let bits : (bit_and a.signer_bitmap 1 == 0, bit_and a.signer_bitmap 2 == 0)
                    ≡ needed =
                  ok-injective (rw (unused, live, same_digest, same_expiry) at h) in
                (
                  live_accepts a args digest now bump unused 0 refl live same_digest same_expiry
                        same_direction same_operation
                      ∙ ap (λ p. p.0) bits,
                  live_accepts a args digest now bump unused 1 refl live same_digest same_expiry
                        same_direction same_operation
                      ∙ ap (λ p. p.1) bits,
                )
          ]
        ]
      ]
    ]
