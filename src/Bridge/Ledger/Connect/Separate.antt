-- ===== src/Bridge/Ledger/Connect/Separate.antt =====
-- bridge/src/canton_history.rs: the operations that one history connects are separate.
use canton_treasury_dvp.Base.{
  ◌≡◌, ap, sym, subst, ok-injective, ◌∙◌, Bool, true, false, not, Option, some, List, ok, bytes_eq,
  bytes_eq_iff, bytes_eq_refl, codes, any, Among, first, later, arith, ◌||◌, ◌↔◌,
}
use canton_treasury_dvp.Bridge.Units.{Text}
use canton_treasury_dvp.Bridge.Evidence.{CantonLedgerExpectation, CantonLedgerEvidence}
use canton_treasury_dvp.Bridge.Ledger.{field_text, is_text}
use canton_treasury_dvp.Bridge.Ledger.Facts.{
  CreatedFact, CantonHistory, template_ends, unique_created,
}
use canton_treasury_dvp.Bridge.Ledger.Operation.{minted_elsewhere}
use canton_treasury_dvp.Bridge.Ledger.Connect.{connect_canton_history}
use canton_treasury_dvp.Bridge.Ledger.Connect.Connected.{
  Connected, connect_canton_history-Connected,
}

none_of {ℓ} :
    {A : Type ℓ} (p : A → Bool) {a : A} {xs : List A} → any p xs ≡ false → Among a xs → p a ≡ false
none_of p {a} h (first ys) = no_head (p a) (any p ys) h
  where
    no_head : (b c : Bool) → (b || c) ≡ false → b ≡ false
    no_head b c h = ground (arith, h)
none_of p h (later y {xs} m) = none_of p (no_tail (p y) (any p xs) h) m
  where
    no_tail : (b c : Bool) → (b || c) ≡ false → c ≡ false
    no_tail b c h = ground (arith, h)

not_other : (s t : Text) → not (bytes_eq s t) ≡ false → s ≡ t
not_other s t h = (bytes_eq_iff s t).0 (ground (arith, h))

-- A lock of the holding is the lock, when none was minted elsewhere.
same_lock :
    (x : CantonLedgerExpectation) (f : CreatedFact) (lock : Text)
    → minted_elsewhere x f ≡ false
    → template_ends f (codes "MintedLock") ≡ true
    → field_text f.arguments (codes "holdingCid") ≡ some x.mint_holding
    → field_text f.arguments (codes "lockId") ≡ some lock
    → lock ≡ x.lock_id
unfolding minted_elsewhere
same_lock x f lock h kind holding named =
    not_other lock x.lock_id (rw (kind, holding, named, bytes_eq_refl x.mint_holding) at h)

one_lock :
    (h : CantonHistory) (x y : CantonLedgerExpectation) (e f : CantonLedgerEvidence)
    → Connected h x e
    → Connected h y f
    → e.mint_holding ≡ f.mint_holding
    → e.lock_id ≡ f.lock_id
one_lock h x y e f a b same =
    let holding : y.mint_holding ≡ x.mint_holding =
      sym b.mint_holding ∙ sym same ∙ a.mint_holding in
    let lock =
      same_lock x b.lock.minted y.lock_id
        (none_of (minted_elsewhere x) a.minted.alone b.minted.of_lock.member) b.minted.of_lock.kind
        (subst (λ t. field_text b.lock.minted.arguments (codes "holdingCid") ≡ some t) holding
          b.minted.holds)
        b.minted.of_lock.says in
    a.lock_id ∙ sym lock ∙ sym b.lock_id

text-injective : {s t : Text} → ◌≡◌ {A = Option Text} (some s) (some t) → s ≡ t
text-injective h = cc

one_holding :
    (h : CantonHistory) (x y : CantonLedgerExpectation) (e f : CantonLedgerEvidence)
    → Connected h x e
    → Connected h y f
    → e.lock_id ≡ f.lock_id
    → e.mint_holding ≡ f.mint_holding
one_holding h x y e f a b same =
    let lock : x.lock_id ≡ y.lock_id = sym a.lock_id ∙ same ∙ b.lock_id in
    let of_x =
      subst
        (λ t.
          unique_created h (codes "MintedLock")
            (λ fact. is_text (field_text (CreatedFact.arguments fact) (codes "lockId")) t)
          ≡ ok a.lock.minted)
        lock a.minted.found in
    let minted : a.lock.minted ≡ b.lock.minted = ok-injective (sym of_x ∙ b.minted.found) in
    let held = ap (λ l. field_text (CreatedFact.arguments l) (codes "holdingCid")) minted in
    a.mint_holding
    ∙ text-injective (sym a.minted.holds ∙ held ∙ b.minted.holds)
    ∙ sym b.mint_holding

-- Two operations that one history connects have the same lock exactly if they have the same minted
-- holding: no holding is evidence for two locks, and no lock for two holdings.
pub connect_canton_history_separate :
    (h : CantonHistory) (x y : CantonLedgerExpectation) (e f : CantonLedgerEvidence)
    → connect_canton_history h x ≡ ok e
    → connect_canton_history h y ≡ ok f
    → (e.mint_holding ≡ f.mint_holding) ↔ (e.lock_id ≡ f.lock_id)
connect_canton_history_separate h x y e f ran_x ran_y =
    let a = connect_canton_history-Connected h x e ran_x in
    let b = connect_canton_history-Connected h y f ran_y in
    (one_lock h x y e f a b, one_holding h x y e f a b)
