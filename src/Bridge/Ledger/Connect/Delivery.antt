-- ===== src/Bridge/Ledger/Connect/Delivery.antt =====
-- bridge/src/canton_history.rs: what the settlement and its outputs have established when they
-- succeed.
use canton_treasury_dvp.Base.{
  ◌≡◌, refl, subst, Bool, true, ◌&&◌, ◌||◌, not, Option, none, some, ok, bytes_eq, bytes_eq_iff,
  codes, any, on_ok, on_some, on_require, ok-injective, &&_true,
}
use canton_treasury_dvp.Bridge.Units.{Text}
use canton_treasury_dvp.Bridge.Evidence.{CantonLedgerExpectation}
use canton_treasury_dvp.Bridge.Ledger.{
  LedgerValue, field_text, field_numeric, is_text, allocation_cid_for_leg, receiver_cids,
  require_instrument, amounts_match,
}
use canton_treasury_dvp.Bridge.Ledger.Steps.{
  on_same, on_text, on_numeric, on_amount, on_retitled, is_some_and, is_text-some,
}
use canton_treasury_dvp.Bridge.Ledger.Facts.{
  CreatedFact, ExercisedFact, CantonHistory, consumed_in, template_ends, unique_created,
  unique_exercised, is_nil,
}
use canton_treasury_dvp.Bridge.Ledger.Facts.Search.{unique_created-found, unique_exercised-found}
use canton_treasury_dvp.Bridge.Ledger.Operation.{PaymentAllocation}
use canton_treasury_dvp.Bridge.Ledger.Operation.Outputs.{
  Settlement, Outputs, Delivered, settlement, settlement_outputs, delivered, is_output, amount_is,
}
use canton_treasury_dvp.Bridge.Ledger.Connect.Payment.{Exercised, Owned}

-- The settlement of a trade, on the payment's allocation, which it consumes with what it locks.
pub record Settled (h : CantonHistory) (trade allocation locked update_id : Text) : Type 0 where
  pub fact : ExercisedFact
  pub exercised : Exercised h (codes "DvpTrade_Settle") update_id fact
  pub bound : fact.cid ≡ trade
  pub leg :
      is_some_and fact.argument
        (λ a. is_text (allocation_cid_for_leg a (codes "stablecoin-payment")) allocation)
      ≡ true
  pub allocation_spent : consumed_in h allocation update_id ≡ true
  pub locked_spent : consumed_in h locked update_id ≡ true

pub settlement-Settled :
    (h : CantonHistory) (trade : Text) (a : PaymentAllocation) (locked : Text) (s : Settlement)
    → settlement h trade a locked ≡ ok s
    → Settled h trade a.payment_allocation locked s.settle_update
unfolding settlement
settlement-Settled h trade a locked s ran =
    let names : ExercisedFact → Bool = λ fact. is_some_and fact.argument (λ argument.
      is_text (allocation_cid_for_leg argument (codes "stablecoin-payment"))
        a.payment_allocation) in
    on_retitled _ (unique_exercised h (codes "DvpTrade_Settle") names) _ ran λ settle found h1.
      let f = unique_exercised-found h (codes "DvpTrade_Settle") names settle found in
      on_some settle.argument _ _ h1 λ args e1 h2. on_some settle.result _ _ h2 λ result e2 h3.
        on_some (allocation_cid_for_leg args (codes "treasury-delivery")) _ _ h3 λ treasury e3 h4.
          on_require (not (bytes_eq treasury a.payment_allocation)) _ _ h4 λ distinct h5.
            on_same settle.cid trade _ _ h5 λ bound h6.
              on_require
                (consumed_in h a.payment_allocation settle.update_id
                  && consumed_in h locked settle.update_id)
                _ _ h6
                λ spent h7.
                  on_require
                    (not (
                      is_nil (receiver_cids result (codes "paymentResult"))
                      || is_nil (receiver_cids result (codes "treasuryResult"))))
                    _ _ h7
                    λ received h8.
                      let both =
                        &&_true (consumed_in h a.payment_allocation settle.update_id)
                          (consumed_in h locked settle.update_id) spent in
                      subst
                        (λ v.
                          Settled h trade a.payment_allocation locked (Settlement.settle_update v))
                        (ok-injective h8)
                        (record {
                          fact = settle;
                          exercised = record { member = f.0; kind = f.1; update = refl };
                          bound = bound;
                          leg = f.2;
                          allocation_spent = both.0;
                          locked_spent = both.1;
                        })

owner_of :
    (o : Option LedgerValue) (owner amount : Text)
    → is_some_and o (λ args.
      is_text (field_text (some args) (codes "owner")) owner
      && amount_is (field_numeric (some args) (codes "amount")) amount)
      ≡ true
    → field_text o (codes "owner") ≡ some owner
owner_of none owner amount h = cc
owner_of (some args) owner amount h =
    is_text-some (field_text (some args) (codes "owner")) owner
      (&&_true (is_text (field_text (some args) (codes "owner")) owner)
        (amount_is (field_numeric (some args) (codes "amount")) amount) h).0

output-Owned :
    (h : CantonHistory) (template update_id owner amount : Text) (f : CreatedFact)
    → unique_created h template (is_output update_id owner amount) ≡ ok f
    → Owned h f.cid update_id owner f × (template_ends f template ≡ true)
unfolding is_output
output-Owned h template update_id owner amount f found =
    let r = unique_created-found h template (is_output update_id owner amount) f found in
    let both = &&_true (bytes_eq f.update_id update_id) _ r.2 in
    (
      record {
        member = r.0;
        contract = refl;
        update = (bytes_eq_iff f.update_id update_id).0 both.0;
        belongs = owner_of f.arguments owner amount both.1;
      },
      r.1,
    )

-- The settlement created the seller's payment and the buyer's Treasury holding.
pub record Delivers (h : CantonHistory) (update_id buyer seller : Text) (out : Outputs)
    : Type 0 where
  pub payment : Owned h out.seller_payment.cid update_id seller out.seller_payment
  pub payment_kind : template_ends out.seller_payment (codes "StablecoinHolding") ≡ true
  pub treasury : Owned h out.buyer_treasury.cid update_id buyer out.buyer_treasury
  pub treasury_kind : template_ends out.buyer_treasury (codes "TreasuryHolding") ≡ true

pub settlement_outputs-Delivers :
    (h : CantonHistory) (x : CantonLedgerExpectation) (buyer seller : Text) (s : Settlement)
    (out : Outputs)
    → settlement_outputs h x buyer seller s ≡ ok out
    → Delivers h s.settle_update buyer seller out
unfolding settlement_outputs
settlement_outputs-Delivers h x buyer seller s out ran =
    on_ok
      (unique_created h (codes "StablecoinHolding")
        (is_output s.settle_update seller x.canton_amount))
      _ ran
      λ paid e1 h1.
        on_ok
          (unique_created h (codes "TreasuryHolding")
            (is_output s.settle_update buyer x.treasury_amount))
          _ h1
          λ bond e2 h2.
            on_require (any (λ cid. bytes_eq cid (CreatedFact.cid paid)) s.payment_receivers) _ _ h2
              λ r1 h3.
                on_require (any (λ cid. bytes_eq cid (CreatedFact.cid bond)) s.treasury_receivers) _
                  _ h3
                  λ r2 h4.
                    let p = output-Owned h _ s.settle_update seller x.canton_amount paid e1 in
                    let t = output-Owned h _ s.settle_update buyer x.treasury_amount bond e2 in
                    subst (Delivers h s.settle_update buyer seller) (ok-injective h4) (record {
                      payment = p.0;
                      payment_kind = p.1;
                      treasury = t.0;
                      treasury_kind = t.1;
                    })

-- The amount that a created holding has, equal to the expected one.
pub record Pays (arguments : Option LedgerValue) (amount expected : Text) : Type 0 where
  pub says_amount : field_numeric arguments (codes "amount") ≡ some amount
  pub matching : amounts_match amount expected ≡ true

pub delivered-Pays :
    (x : CantonLedgerExpectation) (buyer seller : Text) (payment : Text × Text) (out : Outputs)
    (d : Delivered)
    → delivered x buyer seller payment out ≡ ok d
    → Pays out.seller_payment.arguments d.payment_amount x.canton_amount
      × Pays out.buyer_treasury.arguments d.treasury_amount x.treasury_amount
unfolding delivered
delivered-Pays x buyer seller payment out d ran =
    on_some out.seller_payment.arguments _ _ ran λ args e1 h1.
      on_some out.buyer_treasury.arguments _ _ h1 λ targs e2 h2.
        on_numeric args (codes "amount") _ _ h2 λ paid n3 h3.
          on_amount paid x.canton_amount _ _ h3 λ m1 h4.
            on_numeric targs (codes "amount") _ _ h4 λ bond n5 h5.
              on_amount bond x.treasury_amount _ _ h5 λ m2 h6.
                on_ok (require_instrument args _) _ h6 λ i1 e3 h7.
                  on_require (bytes_eq i1.0 payment.0 && bytes_eq i1.1 payment.1) _ _ h7 λ same h8.
                    on_ok (require_instrument targs _) _ h8 λ i2 e4 h9.
                      on_text targs (codes "owner") _ _ h9 λ o1 e5 h10.
                        on_same o1 buyer _ _ h10 λ s1 h11.
                          on_text args (codes "owner") _ _ h11 λ o2 e6 h12.
                            on_same o2 seller _ _ h12 λ s2 h13.
                              subst
                                (λ v.
                                  Pays out.seller_payment.arguments (Delivered.payment_amount v)
                                    x.canton_amount
                                  × Pays out.buyer_treasury.arguments (Delivered.treasury_amount v)
                                      x.treasury_amount)
                                (ok-injective h13)
                                (
                                  record { says_amount = rw e1 n3; matching = m1 },
                                  record { says_amount = rw e2 n5; matching = m2 },
                                )
