-- ===== src/Bridge/Ledger/Connect/Stages.antt =====
-- bridge/src/canton_history.rs: what each stage of `connect_canton_history` has established when it
-- succeeds.
use canton_treasury_dvp.Base.{
  not-true, ◌≡◌, subst, Bool, true, false, not, Option, some, ok, codes, any, on_ok, on_some,
  on_require, ok-injective, Among,
}
use canton_treasury_dvp.Bridge.Units.{Text}
use canton_treasury_dvp.Bridge.Evidence.{CantonLedgerExpectation}
use canton_treasury_dvp.Bridge.Ledger.{
  LedgerValue, field_text, field_numeric, amounts_match, is_text,
}
use canton_treasury_dvp.Bridge.Ledger.Steps.{on_same, on_text, on_numeric, on_amount, is_text-some}
use canton_treasury_dvp.Bridge.Ledger.Facts.{
  CreatedFact, CantonHistory, template_ends, unique_created,
}
use canton_treasury_dvp.Bridge.Ledger.Facts.Search.{unique_created-found}
use canton_treasury_dvp.Bridge.Ledger.Operation.{MintedLock, minted_elsewhere, minted_lock}

-- A fact of a template that the history has, with a text in one of its fields.
pub record Names (h : CantonHistory) (template label value : Text) (f : CreatedFact) : Type 0 where
  pub member : Among f h.created
  pub kind : template_ends f template ≡ true
  pub says : field_text f.arguments label ≡ some value

-- An amount in the arguments of a contract, and equal to the expected one.
pub record Worth (arguments : Option LedgerValue) (expected : Text) : Type 0 where
  pub amount : Text
  pub says_amount : field_numeric arguments (codes "amount") ≡ some amount
  pub matching : amounts_match amount expected ≡ true

pub record Minted (h : CantonHistory) (x : CantonLedgerExpectation) (lock : MintedLock)
    : Type 0 where
  pub found :
      unique_created h
        (codes "MintedLock")
        (λ fact. is_text (field_text fact.arguments (codes "lockId")) x.lock_id)
      ≡ ok lock.minted
  pub of_lock : Names h (codes "MintedLock") (codes "lockId") x.lock_id lock.minted
  pub holds : field_text lock.minted.arguments (codes "holdingCid") ≡ some x.mint_holding
  pub holding : lock.mint_holding ≡ x.mint_holding
  pub worth : Worth lock.minted.arguments x.canton_amount
  pub alone : any (minted_elsewhere x) h.created ≡ false

pub minted_lock-Minted :
    (h : CantonHistory) (x : CantonLedgerExpectation) (lock : MintedLock)
    → minted_lock h x ≡ ok lock
    → Minted h x lock
unfolding minted_lock
minted_lock-Minted h x lock ran =
    let of_lock : CreatedFact → Bool =
      λ fact. is_text (field_text fact.arguments (codes "lockId")) x.lock_id in
    on_ok (unique_created h (codes "MintedLock") of_lock) _ ran λ minted found h1.
      let f = unique_created-found h (codes "MintedLock") of_lock minted found in
      on_some minted.arguments _ _ h1 λ args a h2.
        on_text args (codes "holdingCid") _ _ h2 λ mint_holding e h3.
          on_same mint_holding x.mint_holding _ _ h3 λ same h4.
            on_require (not (any (minted_elsewhere x) h.created)) _ _ h4 λ alone h5.
              on_numeric args (codes "amount") _ _ h5 λ amount n6 h6.
                on_amount amount x.canton_amount _ _ h6 λ matched h7.
                  on_text args (codes "beneficiary") _ _ h7 λ buyer b h8.
                    on_text args (codes "cashRegistry") _ _ h8 λ registry r h9.
                      subst (Minted h x) (ok-injective h9) (record {
                        found = found;
                        of_lock = record {
                          member = f.0;
                          kind = f.1;
                          says =
                              is_text-some (field_text minted.arguments (codes "lockId")) x.lock_id
                                f.2;
                        };
                        holds = rw (a, ← same) e;
                        holding = same;
                        worth = record {
                          amount = amount;
                          says_amount = rw a n6;
                          matching = matched;
                        };
                        alone = not-true (any (minted_elsewhere x) h.created) alone;
                      })
