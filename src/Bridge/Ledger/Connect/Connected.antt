-- ===== src/Bridge/Ledger/Connect/Connected.antt =====
-- bridge/src/canton_history.rs: what the evidence of `connect_canton_history` says of the history.
use canton_treasury_dvp.Base.{
  ◌≡◌, refl, subst, some, ok, codes, on_ok, on_some, ok_or-some, ok-injective,
}
use canton_treasury_dvp.Bridge.Units.{Text}
use canton_treasury_dvp.Bridge.Evidence.{CantonLedgerExpectation, CantonLedgerEvidence}
use canton_treasury_dvp.Bridge.Ledger.{field_text, require_text}
use canton_treasury_dvp.Bridge.Ledger.Steps.{non_empty-some}
use canton_treasury_dvp.Bridge.Ledger.Facts.{CreatedFact, ExercisedFact, CantonHistory}
use canton_treasury_dvp.Bridge.Ledger.Binding.{authorized_binding, allocation_locked_holding}
use canton_treasury_dvp.Bridge.Ledger.Operation.{
  MintedLock, recorded_fields, minted_lock, payment_instrument, payment_allocation, locked_payment,
}
use canton_treasury_dvp.Bridge.Ledger.Operation.Outputs.{
  Outputs, settlement, settlement_outputs, delivered,
}
use canton_treasury_dvp.Bridge.Ledger.Operation.Redemption.{
  redemption_request, gateway_redeem, redeemed_lock,
}
use canton_treasury_dvp.Bridge.Ledger.Connect.{bound_trade, connect_canton_history}
use canton_treasury_dvp.Bridge.Ledger.Connect.Stages.{Names, Worth, Minted, minted_lock-Minted}
use canton_treasury_dvp.Bridge.Ledger.Connect.Authorized.{Authorized, authorized_binding-Authorized}
use canton_treasury_dvp.Bridge.Ledger.Connect.Payment.{
  Allocated, payment_allocation-Allocated, Locks, allocation_locked_holding-Locks, Owned,
  locked_payment-Owned,
}
use canton_treasury_dvp.Bridge.Ledger.Connect.Delivery.{
  Settled, settlement-Settled, Delivers, settlement_outputs-Delivers, Pays, delivered-Pays,
}
use canton_treasury_dvp.Bridge.Ledger.Connect.Redeemed.{
  Requested, redemption_request-Requested, Redeems, gateway_redeem-Redeems, redeemed_lock-Names,
}

-- The evidence is of one operation in the history, the expected one: each part names the parts
-- before it.
pub record Connected (h : CantonHistory) (x : CantonLedgerExpectation) (e : CantonLedgerEvidence)
    : Type 0 where
  pub lock : MintedLock
  pub minted : Minted h x lock
  pub lock_id : e.lock_id ≡ x.lock_id
  pub mint_holding : e.mint_holding ≡ x.mint_holding
  pub binding : CreatedFact
  pub authorized : Authorized h x.lock_id e.mint_holding lock.minted.update_id binding
  pub trade : field_text binding.arguments (codes "tradeCid") ≡ some e.trade_cid
  pub allocated :
      Allocated h x e.mint_holding e.buyer e.seller e.payment_allocation e.allocate_update
  pub locks : Locks h e.payment_allocation e.allocate_update e.payment_locked
  pub locked : CreatedFact
  pub locked_for : Owned h e.payment_locked e.allocate_update e.buyer locked
  pub locked_worth : Worth locked.arguments x.canton_amount
  pub settled : Settled h e.trade_cid e.payment_allocation e.payment_locked e.settle_update
  pub outputs : Outputs
  pub delivers : Delivers h e.settle_update e.buyer e.seller outputs
  pub seller_payment : outputs.seller_payment.cid ≡ e.seller_payment
  pub buyer_treasury : outputs.buyer_treasury.cid ≡ e.buyer_treasury
  pub paid : Pays outputs.seller_payment.arguments e.payment_amount x.canton_amount
  pub bought : Pays outputs.buyer_treasury.arguments e.treasury_amount x.treasury_amount
  pub request : CreatedFact
  pub requested : Requested h x e.seller e.seller_payment (request, e.payout_destination)
  pub redeem : ExercisedFact
  pub redeems : Redeems h request lock.minted binding e.seller_payment redeem
  pub redeem_update : redeem.update_id ≡ e.redeem_update
  pub redeemed : CreatedFact
  pub redeemed_names : Names h (codes "RedeemedLock") (codes "lockId") x.lock_id redeemed
  pub redeemed_in : redeemed.update_id ≡ e.redeem_update
  pub redeemed_holder : field_text redeemed.arguments (codes "holder") ≡ some e.seller
  pub redeemed_worth : Worth redeemed.arguments x.canton_amount
  pub redeemed_lock : redeemed.cid ≡ e.redeemed_lock

bound_trade-field_text :
    (b : CreatedFact) (trade : Text)
    → bound_trade b ≡ ok trade
    → field_text b.arguments (codes "tradeCid") ≡ some trade
unfolding bound_trade require_text
bound_trade-field_text b trade ran =
    on_some b.arguments _ _ ran λ args e h.
      rw e (non_empty-some (field_text (some args) (codes "tradeCid")) (ok_or-some _ _ h))

pub connect_canton_history-Connected :
    (h : CantonHistory) (x : CantonLedgerExpectation) (e : CantonLedgerEvidence)
    → connect_canton_history h x ≡ ok e
    → Connected h x e
unfolding connect_canton_history
connect_canton_history-Connected h x e ran = on_ok (recorded_fields x) _ ran λ full _ h0.
    on_ok (minted_lock h x) _ h0 λ lock e1 h1.
      on_ok (payment_instrument h x lock) _ h1 λ payment e2 h2.
        on_ok
          (authorized_binding h x.lock_id lock.mint_holding lock.minted.update_id lock.cash_registry
            lock.buyer)
          _ h2
          λ binding e3 h3. on_ok (bound_trade binding) _ h3 λ trade e4 h4.
            on_ok (payment_allocation h x lock payment) _ h4 λ a e5 h5.
              on_ok (allocation_locked_holding h a.payment_allocation a.allocate_update) _ h5
                λ locked e6 h6. on_ok (locked_payment h x lock payment a locked) _ h6 λ u e7 h7.
                  on_ok (settlement h trade a locked) _ h7 λ s e8 h8.
                    on_ok (settlement_outputs h x lock.buyer a.seller s) _ h8 λ out e9 h9.
                      on_ok (delivered x lock.buyer a.seller payment out) _ h9 λ d e10 h10.
                        on_ok (redemption_request h x a.seller payment out.seller_payment) _ h10
                          λ request e11 h11.
                            on_ok
                              (gateway_redeem h request.0 lock.minted binding out.seller_payment) _
                              h11
                              λ redeem e12 h12.
                                on_ok (redeemed_lock h x a.seller redeem.update_id) _ h12
                                  λ redeemed e13 h13.
                                    let m = minted_lock-Minted h x lock e1 in
                                    let owned = locked_payment-Owned h x lock payment a locked e7 in
                                    let amounts =
                                      delivered-Pays x lock.buyer a.seller payment out d e10 in
                                    let r =
                                      redeemed_lock-Names h x a.seller redeem.update_id redeemed
                                        e13 in
                                    subst (Connected h x) (ok-injective h13) (record {
                                      lock = lock;
                                      minted = m;
                                      lock_id = refl;
                                      mint_holding = m.holding;
                                      binding = binding;
                                      authorized =
                                          authorized_binding-Authorized h x.lock_id
                                            lock.mint_holding lock.minted.update_id
                                            lock.cash_registry lock.buyer binding e3;
                                      trade = bound_trade-field_text binding trade e4;
                                      allocated =
                                          payment_allocation-Allocated h x lock payment a e5;
                                      locks =
                                          allocation_locked_holding-Locks h a.payment_allocation
                                            a.allocate_update locked e6;
                                      locked = owned.0;
                                      locked_for = owned.1;
                                      locked_worth = owned.2;
                                      settled = settlement-Settled h trade a locked s e8;
                                      outputs = out;
                                      delivers =
                                          settlement_outputs-Delivers h x lock.buyer a.seller s out
                                            e9;
                                      seller_payment = refl;
                                      buyer_treasury = refl;
                                      paid = amounts.0;
                                      bought = amounts.1;
                                      request = request.0;
                                      requested =
                                          redemption_request-Requested h x a.seller payment
                                            out.seller_payment request e11;
                                      redeem = redeem;
                                      redeems =
                                          gateway_redeem-Redeems h request.0 lock.minted binding
                                            out.seller_payment redeem e12;
                                      redeem_update = refl;
                                      redeemed = redeemed;
                                      redeemed_names = r.0;
                                      redeemed_in = r.1;
                                      redeemed_holder = r.2;
                                      redeemed_worth = r.3;
                                      redeemed_lock = refl;
                                    })
