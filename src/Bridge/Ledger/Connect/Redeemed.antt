-- ===== src/Bridge/Ledger/Connect/Redeemed.antt =====
-- bridge/src/canton_history.rs: what the redemption's stages have established when they succeed.
use canton_treasury_dvp.Base.{
  ◌≡◌, refl, subst, Bool, true, ◌&&◌, some, List, [], ◌∷◌, ok, bytes_eq, bytes_eq_iff, codes, any,
  on_ok, on_some, on_require, ok-injective, &&_true, Among, first, later, inl, inr, Bool-cases,
}
use canton_treasury_dvp.Bridge.Units.{Text}
use canton_treasury_dvp.Bridge.Evidence.{CantonLedgerExpectation}
use canton_treasury_dvp.Bridge.Ledger.{field_text, is_text, require_instrument}
use canton_treasury_dvp.Bridge.Ledger.Steps.{
  on_same, on_text, on_numeric, on_amount, on_retitled, is_some_and, is_text-some,
}
use canton_treasury_dvp.Bridge.Ledger.Facts.{
  CreatedFact, ExercisedFact, CantonHistory, consumed_in, unique_created, unique_exercised,
}
use canton_treasury_dvp.Bridge.Ledger.Facts.Search.{unique_created-found, unique_exercised-found}
use canton_treasury_dvp.Bridge.Ledger.Operation.Redemption.{
  redemption_request, gateway_redeem, redeemed_lock, is_burn,
}
use canton_treasury_dvp.Bridge.Ledger.Connect.Stages.{Names, Worth}
use canton_treasury_dvp.Bridge.Ledger.Connect.Payment.{Exercised}

-- The request to redeem a holding for a lock, to the expected destination.
pub record Requested (h : CantonHistory) (x : CantonLedgerExpectation) (seller holding : Text)
    (r : CreatedFact × Text) : Type 0 where
  pub of_lock : Names h (codes "RedemptionRequest") (codes "lockId") x.lock_id r.0
  pub of_holding : field_text r.0.arguments (codes "holdingCid") ≡ some holding
  pub payout : r.1 ≡ x.payout_destination
  pub says_payout : field_text r.0.arguments (codes "payoutDestination") ≡ some x.payout_destination
  pub holder : field_text r.0.arguments (codes "holder") ≡ some seller
  pub worth : Worth r.0.arguments x.canton_amount

pub redemption_request-Requested :
    (h : CantonHistory) (x : CantonLedgerExpectation) (seller : Text) (payment : Text × Text)
    (paid : CreatedFact) (r : CreatedFact × Text)
    → redemption_request h x seller payment paid ≡ ok r
    → Requested h x seller paid.cid r
unfolding redemption_request
redemption_request-Requested h x seller payment paid r ran =
    let of_lock : CreatedFact → Bool =
      λ fact. is_text (field_text fact.arguments (codes "lockId")) x.lock_id in
    on_ok (unique_created h (codes "RedemptionRequest") of_lock) _ ran λ request found h1.
      let f = unique_created-found h (codes "RedemptionRequest") of_lock request found in
      on_some request.arguments _ _ h1 λ args e1 h2.
        on_text args (codes "holdingCid") _ _ h2 λ holding e2 h3.
          on_same holding paid.cid _ _ h3 λ same h4.
            on_text args (codes "payoutDestination") _ _ h4 λ payout e3 h5.
              on_same payout x.payout_destination _ _ h5 λ same_payout h6.
                on_numeric args (codes "amount") _ _ h6 λ amount n7 h7.
                  on_amount amount x.canton_amount _ _ h7 λ matched h8.
                    on_text args (codes "holder") _ _ h8 λ holder e4 h9.
                      on_same holder seller _ _ h9 λ same_holder h10.
                        on_ok (require_instrument args _) _ h10 λ i e5 h11.
                          on_require (bytes_eq i.0 payment.0 && bytes_eq i.1 payment.1) _ _ h11
                            λ same_i h12.
                              subst (Requested h x seller paid.cid) (ok-injective h12) (record {
                                of_lock = record {
                                  member = f.0;
                                  kind = f.1;
                                  says =
                                      is_text-some (field_text request.arguments (codes "lockId"))
                                        x.lock_id f.2;
                                };
                                of_holding = rw (e1, ← same) e2;
                                payout = same_payout;
                                says_payout = rw (e1, ← same_payout) e3;
                                holder = rw (e1, ← same_holder) e4;
                                worth = record {
                                  amount = amount;
                                  says_amount = rw e1 n7;
                                  matching = matched;
                                };
                              })

-- An element that satisfies a test.
any-Among {ℓ} :
    {A : Type ℓ} (p : A → Bool) (xs : List A)
    → any p xs ≡ true
    → (a : A) × Among a xs × (p a ≡ true)
any-Among p [] h = cc
any-Among p (x ∷ xs) h = elim (Bool-cases (p x)) [
  | inl e ↦ (x, first xs, e)
  | inr e ↦ let r = any-Among p xs (rw e at h) in (r.0, later x r.1, r.2)
]

-- A holding that an update consumes by a burn.
pub record Burned (h : CantonHistory) (cid update_id : Text) : Type 0 where
  pub burn : ExercisedFact
  pub exercised : Exercised h (codes "Burn") update_id burn
  pub consuming : burn.consuming ≡ true
  pub contract : burn.cid ≡ cid
  pub spent : consumed_in h cid update_id ≡ true

burn-Burned :
    (h : CantonHistory) (cid update_id : Text) (f : ExercisedFact)
    → Among f h.exercised
    → is_burn cid update_id f ≡ true
    → consumed_in h cid update_id ≡ true
    → Burned h cid update_id
unfolding is_burn
burn-Burned h cid update_id f m t spent =
    let a =
      &&_true (bytes_eq f.choice (codes "Burn") && f.consuming && bytes_eq f.cid cid)
        (bytes_eq f.update_id update_id) t in
    let b = &&_true (bytes_eq f.choice (codes "Burn") && f.consuming) (bytes_eq f.cid cid) a.0 in
    let c = &&_true (bytes_eq f.choice (codes "Burn")) f.consuming b.0 in
    record {
      burn = f;
      exercised = record {
        member = m;
        kind = (bytes_eq_iff f.choice (codes "Burn")).0 c.0;
        update = (bytes_eq_iff f.update_id update_id).0 a.1;
      };
      consuming = c.1;
      contract = (bytes_eq_iff f.cid cid).0 b.1;
      spent = spent;
    }

-- The redemption of a request burns the holding.
pub record Redeems (h : CantonHistory) (request minted binding : CreatedFact) (holding : Text)
    (f : ExercisedFact) : Type 0 where
  pub exercised : Exercised h (codes "Gateway_Redeem") f.update_id f
  pub names :
      is_some_and f.argument (λ a. is_text (field_text (some a) (codes "requestCid")) request.cid)
      ≡ true
  pub of_minted : field_text f.argument (codes "mintedLockCid") ≡ some minted.cid
  pub of_binding : field_text f.argument (codes "bindingCid") ≡ some binding.cid
  pub burned : Burned h holding f.update_id

pub gateway_redeem-Redeems :
    (h : CantonHistory) (request minted binding paid : CreatedFact) (f : ExercisedFact)
    → gateway_redeem h request minted binding paid ≡ ok f
    → Redeems h request minted binding paid.cid f
unfolding gateway_redeem
gateway_redeem-Redeems h request minted binding paid f ran =
    let names : ExercisedFact → Bool = λ fact.
      is_some_and fact.argument
        (λ argument. is_text (field_text (some argument) (codes "requestCid")) request.cid) in
    on_retitled _ (unique_exercised h (codes "Gateway_Redeem") names) _ ran λ redeem found h1.
      let r = unique_exercised-found h (codes "Gateway_Redeem") names redeem found in
      on_some redeem.argument _ _ h1 λ args e1 h2.
        on_text args (codes "mintedLockCid") _ _ h2 λ c1 e2 h3.
          on_same c1 minted.cid _ _ h3 λ s1 h4. on_text args (codes "bindingCid") _ _ h4 λ c2 e3 h5.
            on_same c2 binding.cid _ _ h5 λ s2 h6.
              on_require
                (consumed_in h paid.cid redeem.update_id
                  && any (is_burn paid.cid redeem.update_id) h.exercised)
                _ _ h6
                λ burns h7.
                  let both =
                    &&_true (consumed_in h paid.cid redeem.update_id)
                      (any (is_burn paid.cid redeem.update_id) h.exercised) burns in
                  let b = any-Among (is_burn paid.cid redeem.update_id) h.exercised both.1 in
                  subst (Redeems h request minted binding paid.cid) (ok-injective h7) (record {
                    exercised = record { member = r.0; kind = r.1; update = refl };
                    names = r.2;
                    of_minted = rw (e1, ← s1) e2;
                    of_binding = rw (e1, ← s2) e3;
                    burned = burn-Burned h paid.cid redeem.update_id b.0 b.1 b.2 both.0;
                  })

pub redeemed_lock-Names :
    (h : CantonHistory) (x : CantonLedgerExpectation) (seller update_id : Text) (f : CreatedFact)
    → redeemed_lock h x seller update_id ≡ ok f
    → Names h (codes "RedeemedLock") (codes "lockId") x.lock_id f
      × (f.update_id ≡ update_id)
      × (field_text f.arguments (codes "holder") ≡ some seller)
      × Worth f.arguments x.canton_amount
unfolding redeemed_lock
redeemed_lock-Names h x seller update_id f ran =
    let of_lock : CreatedFact → Bool = λ fact.
      bytes_eq fact.update_id update_id
      && is_text (field_text fact.arguments (codes "lockId")) x.lock_id in
    on_ok (unique_created h (codes "RedeemedLock") of_lock) _ ran λ redeemed found h1.
      let r = unique_created-found h (codes "RedeemedLock") of_lock redeemed found in
      let both =
        &&_true (bytes_eq redeemed.update_id update_id)
          (is_text (field_text redeemed.arguments (codes "lockId")) x.lock_id) r.2 in
      on_some redeemed.arguments _ _ h1 λ args e1 h2.
        on_numeric args (codes "amount") _ _ h2 λ amount n3 h3.
          on_amount amount x.canton_amount _ _ h3 λ matched h4.
            on_text args (codes "holder") _ _ h4 λ holder e2 h5.
              on_same holder seller _ _ h5 λ same h6.
                subst
                  (λ v.
                    Names h (codes "RedeemedLock") (codes "lockId") x.lock_id v
                    × (CreatedFact.update_id v ≡ update_id)
                    × (field_text (CreatedFact.arguments v) (codes "holder") ≡ some seller)
                    × Worth (CreatedFact.arguments v) x.canton_amount)
                  (ok-injective h6)
                  (
                    record {
                      member = r.0;
                      kind = r.1;
                      says =
                          is_text-some (field_text redeemed.arguments (codes "lockId")) x.lock_id
                            both.1;
                    },
                    (bytes_eq_iff redeemed.update_id update_id).0 both.0,
                    rw (e1, ← same) e2,
                    record { amount = amount; says_amount = rw e1 n3; matching = matched },
                  )
