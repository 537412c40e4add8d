-- ===== src/Bridge/Ledger/Connect/Payment.antt =====
-- bridge/src/canton_history.rs: what the allocation of the payment and the holding that it locks have
-- established when they succeed.
use canton_treasury_dvp.Base.{
  ◌≡◌, refl, subst, Bool, true, ◌&&◌, some, ok, bytes_eq, codes, on_ok, on_some, on_require,
  ok_or-some, ok-injective, Among,
}
use canton_treasury_dvp.Bridge.Units.{Text}
use canton_treasury_dvp.Bridge.Evidence.{CantonLedgerExpectation}
use canton_treasury_dvp.Bridge.Ledger.{
  LedgerValue, non_empty, field, field_text, value_contains_cid, require_instrument,
}
use canton_treasury_dvp.Bridge.Ledger.Steps.{on_same, on_text, on_numeric, on_amount, is_some_and}
use canton_treasury_dvp.Bridge.Ledger.Facts.{
  CreatedFact, ExercisedFact, CantonHistory, consumed_in, unique_exercised, created_by_cid,
}
use canton_treasury_dvp.Bridge.Ledger.Facts.Search.{unique_exercised-found, created_by_cid-found}
use canton_treasury_dvp.Bridge.Ledger.Binding.{single_cid, or_else, allocation_locked_holding}
use canton_treasury_dvp.Bridge.Ledger.Connect.Stages.{Worth}
use canton_treasury_dvp.Bridge.Ledger.Operation.{
  MintedLock, PaymentAllocation, payment_allocation, locked_payment,
}

-- The exercise of a choice in an update.
pub record Exercised (h : CantonHistory) (choice update_id : Text) (f : ExercisedFact)
    : Type 0 where
  pub member : Among f h.exercised
  pub kind : f.choice ≡ choice
  pub update : f.update_id ≡ update_id

-- The allocation names the minted holding and consumes it.
pub record Allocated (h : CantonHistory) (x : CantonLedgerExpectation)
    (holding buyer seller allocation update_id : Text) : Type 0 where
  pub fact : ExercisedFact
  pub exercised : Exercised h (codes "AllocationFactory_Allocate") update_id fact
  pub argument : is_some_and fact.argument (λ a. value_contains_cid a holding) ≡ true
  pub spent : consumed_in h holding update_id ≡ true
  pub results : field_text fact.result (codes "allocationCid") ≡ some allocation
  pub given : LedgerValue
  pub is_given : fact.argument ≡ some given
  pub leg : LedgerValue
  pub is_leg : field given (codes "transferLeg") ≡ some leg
  pub sender : field_text (some leg) (codes "sender") ≡ some buyer
  pub receiver : field_text (some leg) (codes "receiver") ≡ some seller
  pub worth : Worth (some leg) x.canton_amount

pub payment_allocation-Allocated :
    (h : CantonHistory) (x : CantonLedgerExpectation) (lock : MintedLock) (payment : Text × Text)
    (a : PaymentAllocation)
    → payment_allocation h x lock payment ≡ ok a
    → Allocated h x lock.mint_holding lock.buyer a.seller a.payment_allocation a.allocate_update
unfolding payment_allocation
payment_allocation-Allocated h x lock payment a ran =
    let names : ExercisedFact → Bool = λ fact.
      is_some_and fact.argument (λ argument. value_contains_cid argument lock.mint_holding) in
    on_ok (unique_exercised h (codes "AllocationFactory_Allocate") names) _ ran λ allocate found h1.
      let f = unique_exercised-found h (codes "AllocationFactory_Allocate") names allocate found in
      on_some allocate.argument _ _ h1 λ args e1 h2. on_some allocate.result _ _ h2 λ result e2 h3.
        on_require (consumed_in h lock.mint_holding allocate.update_id) _ _ h3 λ spent h4.
          on_text result (codes "allocationCid") _ _ h4 λ cid e3 h5.
            on_text args (codes "expectedAdmin") _ _ h5 λ admin e4 h6.
              on_same admin payment.1 _ _ h6 λ same_admin h7.
                on_some (field args (codes "transferLeg")) _ _ h7 λ leg e5 h8.
                  on_text leg (codes "sender") _ _ h8 λ sender e6 h9.
                    on_text leg (codes "receiver") _ _ h9 λ seller e7 h10.
                      on_same sender lock.buyer _ _ h10 λ same_sender h11.
                        on_numeric leg (codes "amount") _ _ h11 λ amount n12 h12.
                          on_amount amount x.canton_amount _ _ h12 λ matched h13.
                            on_ok (require_instrument leg _) _ h13 λ instrument e8 h14.
                              on_require
                                (bytes_eq instrument.0 payment.0 && bytes_eq instrument.1 payment.1)
                                _ _ h14
                                λ same h15.
                                  subst
                                    (λ v.
                                      Allocated h x lock.mint_holding lock.buyer
                                        (PaymentAllocation.seller v)
                                        (PaymentAllocation.payment_allocation v)
                                        (PaymentAllocation.allocate_update v))
                                    (ok-injective h15)
                                    (record {
                                      fact = allocate;
                                      exercised = record {
                                        member = f.0;
                                        kind = f.1;
                                        update = refl;
                                      };
                                      argument = f.2;
                                      spent = spent;
                                      results = rw e2 e3;
                                      given = args;
                                      is_given = e1;
                                      leg = leg;
                                      is_leg = e5;
                                      sender = rw (← same_sender) e6;
                                      receiver = e7;
                                      worth = record {
                                        amount = amount;
                                        says_amount = n12;
                                        matching = matched;
                                      };
                                    })

-- A contract that an update created, for an owner.
pub record Owned (h : CantonHistory) (cid update_id owner : Text) (f : CreatedFact) : Type 0 where
  pub member : Among f h.created
  pub contract : f.cid ≡ cid
  pub update : f.update_id ≡ update_id
  pub belongs : field_text f.arguments (codes "owner") ≡ some owner

pub locked_payment-Owned :
    (h : CantonHistory) (x : CantonLedgerExpectation) (lock : MintedLock) (payment : Text × Text)
    (a : PaymentAllocation) (cid : Text)
    → locked_payment h x lock payment a cid ≡ ok tt
    → (f : CreatedFact) × Owned h cid a.allocate_update lock.buyer f
      × Worth f.arguments x.canton_amount
unfolding locked_payment
locked_payment-Owned h x lock payment a cid ran =
    on_some (created_by_cid h cid) _ _ ran λ locked found h1.
      let f = created_by_cid-found h cid locked found in
      on_same locked.update_id a.allocate_update _ _ h1 λ update h2.
        on_some locked.arguments _ _ h2 λ args e1 h3.
          on_text args (codes "owner") _ _ h3 λ owner e2 h4.
            on_same owner lock.buyer _ _ h4 λ same h5.
              on_numeric args (codes "amount") _ _ h5 λ amount n6 h6.
                on_amount amount x.canton_amount _ _ h6 λ matched h7. (
                  locked,
                  record {
                    member = f.0;
                    contract = f.1;
                    update = update;
                    belongs = rw (e1, ← same) e2;
                  },
                  record { amount = amount; says_amount = rw e1 n6; matching = matched },
                )

-- The contract that the allocation created, and the holding that it locks.
pub record Locks (h : CantonHistory) (allocation update_id locked : Text) : Type 0 where
  pub contract : CreatedFact
  pub member : Among contract h.created
  pub cid : contract.cid ≡ allocation
  pub update : contract.update_id ≡ update_id
  pub given : LedgerValue
  pub is_given : contract.arguments ≡ some given
  pub names :
      or_else
        (non_empty (field_text (some given) (codes "lockedHoldingCid")))
        (single_cid (field given (codes "holdingCids")))
      ≡ some locked

pub allocation_locked_holding-Locks :
    (h : CantonHistory) (allocation update_id locked : Text)
    → allocation_locked_holding h allocation update_id ≡ ok locked
    → Locks h allocation update_id locked
unfolding allocation_locked_holding
allocation_locked_holding-Locks h allocation update_id locked ran =
    on_some (created_by_cid h allocation) _ _ ran λ contract found h1.
      let f = created_by_cid-found h allocation contract found in
      on_same contract.update_id update_id _ _ h1 λ update h2.
        on_some contract.arguments _ _ h2 λ given e h3. record {
          contract = contract;
          member = f.0;
          cid = f.1;
          update = update;
          given = given;
          is_given = e;
          names = ok_or-some _ _ h3;
        }
