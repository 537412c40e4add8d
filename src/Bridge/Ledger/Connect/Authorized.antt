-- ===== src/Bridge/Ledger/Connect/Authorized.antt =====
-- bridge/src/canton_history.rs: what `authorized_binding` has established when it succeeds.
use canton_treasury_dvp.Base.{
  ℕ, ◌≡◌, subst, Bool, true, ◌&&◌, not, some, ok, bytes_eq, bytes_eq_iff, codes, on_ok, [],
  ok_or-some, on_some, on_require, ok-injective, &&_true, Among, filter, Among-filter,
  Among-max_by_key,
}
use canton_treasury_dvp.Bridge.Units.{Text}
use canton_treasury_dvp.Bridge.Ledger.{field_text, is_text}
use canton_treasury_dvp.Bridge.Ledger.Steps.{on_same, on_text, on_retitled, is_text-some}
use canton_treasury_dvp.Bridge.Ledger.Facts.{
  CreatedFact, ExercisedFact, CantonHistory, template_ends, consumed_in, unique_created,
  unique_exercised, is_nil, rank_of, is_some,
}
use canton_treasury_dvp.Bridge.Ledger.Facts.Search.{unique_created-found, unique_exercised-found}
use canton_treasury_dvp.Bridge.Ledger.Binding.{
  trade_binding, is_only, has_one, distinct_texts, binding_for_lock, mint_reference,
  bound_by_reference, authorized_binding,
}
use canton_treasury_dvp.Bridge.Ledger.Connect.Stages.{Names}

binding_for_lock-Names :
    (h : CantonHistory) (lock_id mint_holding : Text) (b : CreatedFact)
    → binding_for_lock h lock_id mint_holding ≡ ok b
    → Names h trade_binding (codes "lockId") lock_id b
unfolding binding_for_lock
binding_for_lock-Names h lock_id mint_holding b ran =
    let of_lock : CreatedFact → Bool = λ fact.
      template_ends fact trade_binding
      && is_text (field_text fact.arguments (codes "lockId")) lock_id in
    let found = filter of_lock h.created in
    let key : CreatedFact → ℕ =
      λ fact. rank_of (is_some (field_text fact.arguments (codes "sellerPaymentCid"))) in
    on_require (not (is_nil found)) _ _ ran λ some_found h1.
      on_require
        (is_only (distinct_texts (codes "mintHoldingCid") found []) mint_holding
          && has_one (distinct_texts (codes "tradeCid") found []))
        _ _ h1
        λ one h2.
          let kept =
            Among-filter of_lock b h.created (Among-max_by_key key found (ok_or-some _ _ h2)) in
          let both =
            &&_true (template_ends b trade_binding)
              (is_text (field_text b.arguments (codes "lockId")) lock_id) kept.1 in
          record {
            member = kept.0;
            kind = both.0;
            says = is_text-some (field_text b.arguments (codes "lockId")) lock_id both.1;
          }

mint_reference-Names :
    (h : CantonHistory) (lock_id mint_holding minted_update registry buyer : Text) (r : CreatedFact)
    → mint_reference h lock_id mint_holding minted_update registry buyer ≡ ok r
    → Names h (codes "BridgeMintRef") (codes "lockId") lock_id r
      × (r.update_id ≡ minted_update)
      × (field_text r.arguments (codes "mintHoldingCid") ≡ some mint_holding)
unfolding mint_reference
mint_reference-Names h lock_id mint_holding minted_update registry buyer r ran =
    let of_lock : CreatedFact → Bool = λ fact.
      bytes_eq fact.update_id minted_update
      && is_text (field_text fact.arguments (codes "lockId")) lock_id in
    on_retitled _
      (unique_exercised h (codes "Gateway_Mint") (λ fact. bytes_eq fact.update_id minted_update)) _
      ran
      λ mint m h1.
        on_retitled _ (unique_created h (codes "BridgeMintRef") of_lock) _ h1 λ mint_ref found h2.
          let f = unique_created-found h (codes "BridgeMintRef") of_lock mint_ref found in
          let both =
            &&_true (bytes_eq mint_ref.update_id minted_update)
              (is_text (field_text mint_ref.arguments (codes "lockId")) lock_id) f.2 in
          on_some mint_ref.arguments _ _ h2 λ args a h3.
            on_text args (codes "lockId") _ _ h3 λ lock e1 h4.
              on_same lock lock_id _ _ h4 λ same_lock h5.
                on_text args (codes "mintHoldingCid") _ _ h5 λ holding e2 h6.
                  on_same holding mint_holding _ _ h6 λ same_holding h7.
                    on_text args (codes "cashRegistry") _ _ h7 λ cash e3 h8.
                      on_same cash registry _ _ h8 λ same_cash h9.
                        on_text args (codes "buyer") _ _ h9 λ who e4 h10.
                          on_same who buyer _ _ h10 λ same_buyer h11.
                            subst
                              (λ v.
                                Names h (codes "BridgeMintRef") (codes "lockId") lock_id v
                                × (CreatedFact.update_id v ≡ minted_update)
                                × (field_text (CreatedFact.arguments v) (codes "mintHoldingCid")
                                    ≡ some mint_holding))
                              (ok-injective h11)
                              (
                                record {
                                  member = f.0;
                                  kind = f.1;
                                  says =
                                      is_text-some (field_text mint_ref.arguments (codes "lockId"))
                                        lock_id both.1;
                                },
                                (bytes_eq_iff mint_ref.update_id minted_update).0 both.0,
                                rw (a, ← same_holding) e2,
                              )

-- The consuming choice on the mint reference.
pub record Consumed (h : CantonHistory) (reference : CreatedFact) : Type 0 where
  pub bind : ExercisedFact
  pub member : Among bind h.exercised
  pub choice : bind.choice ≡ codes "BridgeMintRef_Bind"
  pub consuming : bind.consuming ≡ true
  pub cid : bind.cid ≡ reference.cid
  pub spent : consumed_in h reference.cid bind.update_id ≡ true

bound_by_reference-Consumed :
    (h : CantonHistory) (lock_id mint_holding : Text) (r : CreatedFact)
    → bound_by_reference h lock_id mint_holding r ≡ ok tt
    → Consumed h r
unfolding bound_by_reference
bound_by_reference-Consumed h lock_id mint_holding r ran =
    let of_reference : ExercisedFact → Bool = λ fact. fact.consuming && bytes_eq fact.cid r.cid in
    on_retitled _ (unique_exercised h (codes "BridgeMintRef_Bind") of_reference) _ ran
      λ bind found h1.
        let f = unique_exercised-found h (codes "BridgeMintRef_Bind") of_reference bind found in
        let both = &&_true bind.consuming (bytes_eq bind.cid r.cid) f.2 in
        on_require (consumed_in h r.cid bind.update_id) _ _ h1 λ spent h2. record {
          bind = bind;
          member = f.0;
          choice = f.1;
          consuming = both.0;
          cid = (bytes_eq_iff bind.cid r.cid).0 both.1;
          spent = spent;
        }

pub record Authorized (h : CantonHistory) (lock_id mint_holding minted_update : Text)
    (b : CreatedFact) : Type 0 where
  pub bound : Names h trade_binding (codes "lockId") lock_id b
  pub reference : CreatedFact
  pub of_lock : Names h (codes "BridgeMintRef") (codes "lockId") lock_id reference
  pub minted : reference.update_id ≡ minted_update
  pub holding : field_text reference.arguments (codes "mintHoldingCid") ≡ some mint_holding
  pub consumed : Consumed h reference

pub authorized_binding-Authorized :
    (h : CantonHistory) (lock_id mint_holding minted_update registry buyer : Text) (b : CreatedFact)
    → authorized_binding h lock_id mint_holding minted_update registry buyer ≡ ok b
    → Authorized h lock_id mint_holding minted_update b
unfolding authorized_binding
authorized_binding-Authorized h lock_id mint_holding minted_update registry buyer b ran =
    on_ok (mint_reference h lock_id mint_holding minted_update registry buyer) _ ran λ r made h1.
      on_ok (bound_by_reference h lock_id mint_holding r) _ h1 λ done bound h2.
        let m = mint_reference-Names h lock_id mint_holding minted_update registry buyer r made in
        record {
          bound = binding_for_lock-Names h lock_id mint_holding b h2;
          reference = r;
          of_lock = m.0;
          minted = m.1;
          holding = m.2;
          consumed = bound_by_reference-Consumed h lock_id mint_holding r bound;
        }
