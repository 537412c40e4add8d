-- ===== src/Bridge/Evidence/Required.antt =====
-- bridge/src/canton.rs: what accepted evidence says of an operation.
use canton_treasury_dvp.Base.{
  ℕ, ◌≡◌, refl, Bool, true, false, ◌&&◌, ◌||◌, not, Option, none, some, bytes_eq, bytes_eq_iff,
  codes, Result, ok, err, on_require, ok-injective, ==_iff, arith, ap, sym, subst,
}
use canton_treasury_dvp.Bridge.Units.{Text, is_empty}
use canton_treasury_dvp.Bridge.Evidence.{
  CantonLedgerExpectation, CantonLedgerEvidence, decimal_to_base6, same_number,
  canton_amounts_match, is_whole, require_canton_ledger_evidence,
}

-- Two texts of one amount, in millionths.
abbrev pub Equals : Text → Text → Type 0
Equals left right = (n : ℕ) × (decimal_to_base6 left ≡ some n) × (decimal_to_base6 right ≡ some n)

pub record Belongs (e : CantonLedgerEvidence) (x : CantonLedgerExpectation) : Type 0 where
  pub lock : e.lock_id ≡ x.lock_id
  pub holding : e.mint_holding ≡ x.mint_holding
  pub payout : e.payout_destination ≡ x.payout_destination
  pub payment : Equals e.payment_amount x.canton_amount
  pub treasury : Equals e.treasury_amount x.treasury_amount
  pub cash : e.instrument_id ≡ codes "USD-C"
  pub bond : e.treasury_instrument ≡ codes "UST-2028-11"
  pub minted : e.mint_consumed ≡ true
  pub burned : e.seller_burned ≡ true
  pub settled : e.settle_seen ≡ true
  pub redeemed : e.redeem_seen ≡ true

same_number-Equals :
    (a b : Option ℕ) → same_number a b ≡ true → (n : ℕ) × (a ≡ some n) × (b ≡ some n)
same_number-Equals none b h = cc
same_number-Equals (some a) none h = cc
same_number-Equals (some a) (some b) h = (a, refl, ap some (sym ((==_iff a b).0 h)))

amounts-Equals : (l r : Text) → canton_amounts_match l r ≡ true → Equals l r
unfolding canton_amounts_match
amounts-Equals l r h = same_number-Equals (decimal_to_base6 l) (decimal_to_base6 r) h

flags :
    (e : CantonLedgerEvidence)
    → is_whole e ≡ true
    → (is_empty e.lock_id ≡ false)
      × (e.mint_consumed ≡ true)
      × (e.seller_burned ≡ true)
      × (e.settle_seen ≡ true)
      × (e.redeem_seen ≡ true)
unfolding is_whole
flags e h = ground (arith, h)

first_two : (a b c d : Bool) → (a && b && c && d) ≡ true → (a ≡ true) × (b ≡ true)
first_two a b c d h = (ground (arith, h), ground (arith, h))

same_lock : (e x : Text) → is_empty e ≡ false → (is_empty e || bytes_eq e x) ≡ true → e ≡ x
same_lock e x kept h = (bytes_eq_iff e x).0 (rw kept at h)

-- Evidence that is accepted is the evidence that was read, and belongs to the expected operation:
-- its lock, holding and payout destination, both amounts, both instruments, and the mint, the
-- settlement, the burn and the redemption.
pub require_canton_ledger_evidence-Belongs :
    (read : Result Text CantonLedgerEvidence) (x : CantonLedgerExpectation)
    (e : CantonLedgerEvidence)
    → require_canton_ledger_evidence read x ≡ ok e
    → (read ≡ ok e) × Belongs e x
unfolding require_canton_ledger_evidence
require_canton_ledger_evidence-Belongs (err m) x e h = cc
require_canton_ledger_evidence-Belongs (ok r) x e h =
    on_require (is_empty r.lock_id || bytes_eq r.lock_id x.lock_id) _ _ h λ c1 h1.
      on_require
        (not (
          is_empty x.lock_id
          || is_empty x.mint_holding
          || is_empty x.payout_destination
          || is_empty x.canton_amount))
        _ _ h1
        λ c2 h2. on_require (is_whole r) _ _ h2 λ c3 h3.
          on_require (bytes_eq r.mint_holding x.mint_holding) _ _ h3 λ c4 h4.
            on_require (bytes_eq r.payout_destination x.payout_destination) _ _ h4 λ c5 h5.
              on_require (canton_amounts_match r.payment_amount x.canton_amount) _ _ h5 λ c6 h6.
                on_require (canton_amounts_match r.treasury_amount x.treasury_amount) _ _ h6
                  λ c7 h7.
                    on_require
                      (bytes_eq r.instrument_id (codes "USD-C")
                        && bytes_eq r.treasury_instrument (codes "UST-2028-11")
                        && not (is_empty r.payment_admin)
                        && not (is_empty r.treasury_admin))
                      _ _ h7
                      λ c8 h8.
                        let f = flags r c3 in
                        let instruments =
                          first_two (bytes_eq r.instrument_id (codes "USD-C"))
                            (bytes_eq r.treasury_instrument (codes "UST-2028-11")) _ _ c8 in
                        (
                          ap ok (ok-injective h8),
                          subst (λ v. Belongs v x) (ok-injective h8)
                              (record {
                                lock = same_lock r.lock_id x.lock_id f.0 c1;
                                holding = (bytes_eq_iff r.mint_holding x.mint_holding).0 c4;
                                payout =
                                    (bytes_eq_iff r.payout_destination x.payout_destination).0 c5;
                                payment = amounts-Equals r.payment_amount x.canton_amount c6;
                                treasury = amounts-Equals r.treasury_amount x.treasury_amount c7;
                                cash =
                                    (bytes_eq_iff r.instrument_id (codes "USD-C")).0 instruments.0;
                                bond =
                                    (bytes_eq_iff r.treasury_instrument (codes "UST-2028-11")).0
                                      instruments.1;
                                minted = f.1;
                                burned = f.2;
                                settled = f.3;
                                redeemed = f.4;
                              }),
                        )
