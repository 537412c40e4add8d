-- ===== src/Bridge/Setup/Compatible.antt =====
-- bridge/src/setup.rs: which configuration is compatible.
use canton_treasury_dvp.Base.{
  ◌≡◌, refl, subst, Bool, true, false, ◌&&◌, inl, inr, ◌⊎◌, ◌↔◌, Bytes, Result, ok, err, ◌>>◌,
  require, on_require, bytes_eq, bytes_eq_iff, arith,
}
use canton_treasury_dvp.Escrow.State.{Attesters}
use canton_treasury_dvp.Bridge.Units.{Text}
use canton_treasury_dvp.Bridge.Setup.{
  BridgeConfigView, contains, require_each, config_is_compatible,
}

abbrev pub IsIn : Bytes → Attesters → Type 0
IsIn key keys = (keys.first ≡ key) ⊎ (keys.second ≡ key) ⊎ (keys.third ≡ key)

contains_iff : (keys : Attesters) (key : Bytes) → (contains keys key ≡ true) ↔ IsIn key keys
unfolding contains
contains_iff keys key = (
  λ h. ground (
    arith,
    h,
    bytes_eq_iff keys.first key,
    bytes_eq_iff keys.second key,
    bytes_eq_iff keys.third key,
  ),
  λ h. ground (
    arith,
    h,
    bytes_eq_iff keys.first key,
    bytes_eq_iff keys.second key,
    bytes_eq_iff keys.third key,
  ),
)

-- The view names the mint and the vault, and has the same attesters, in any order.
pub record Agrees (to_string : Bytes → Text) (view : BridgeConfigView) (mint vault : Text)
    (attesters : Attesters) : Type 0 where
  pub same_mint : to_string view.mint ≡ mint
  pub same_vault : to_string view.vault ≡ vault
  pub same_attesters : (key : Bytes) → IsIn key view.attesters ↔ IsIn key attesters

require_iff : {E : Type 0} (b : Bool) (e : E) → (require b e ≡ ok tt) ↔ (b ≡ true)
require_iff true e = (λ _. refl, λ _. refl)
require_iff false e = (λ h. cc, λ h. cc)

require_each_iff :
    (keys within : Attesters) (message : Text)
    → (require_each keys within message ≡ ok tt) ↔ ((key : Bytes) → IsIn key keys → IsIn key within)
unfolding require_each
require_each_iff keys within message = (
  λ h. on_require (contains within keys.first) message _ h λ one rest.
      on_require (contains within keys.second) message _ rest
        λ two last. inside one two ((require_iff (contains within keys.third) message).0 last),
  λ sub.
      rw
        (
          (contains_iff within keys.first).1 (sub keys.first (inl refl)),
          (contains_iff within keys.second).1 (sub keys.second (inr (inl refl))),
          (contains_iff within keys.third).1 (sub keys.third (inr (inr refl))),
        )
        refl,
)
  where
    inside :
        contains within keys.first ≡ true
        → contains within keys.second ≡ true
        → contains within keys.third ≡ true
        → (key : Bytes) → IsIn key keys
        → IsIn key within
    inside one two three key (inl e) =
        subst (λ x. IsIn x within) e ((contains_iff within keys.first).0 one)
    inside one two three key (inr (inl e)) =
        subst (λ x. IsIn x within) e ((contains_iff within keys.second).0 two)
    inside one two three key (inr (inr e)) =
        subst (λ x. IsIn x within) e ((contains_iff within keys.third).0 three)

then_iff :
    {E : Type 0} {P Q : Type 0} (m k : Result E (Unit {0}))
    → (m ≡ ok tt) ↔ P
    → (k ≡ ok tt) ↔ Q
    → ((m >> k) ≡ ok tt) ↔ (P × Q)
then_iff (ok u) k f g = (λ h. (f.0 refl, g.0 h), λ v. g.1 v.1)
then_iff (err e) k f g = (λ h. cc, λ v. absurd (err_ne_ok (f.1 v.0)))
  where
    err_ne_ok : ◌≡◌ {A = Result _ (Unit {0})} (err e) (ok tt) → ⊥
    err_ne_ok h = cc

iff_trans : {P Q R : Type 0} → P ↔ Q → Q ↔ R → P ↔ R
iff_trans f g = (λ p. g.0 (f.0 p), λ r. f.1 (g.1 r))

both_iff :
    (a b : Bytes) (c d : Bytes) → ((bytes_eq a b && bytes_eq c d) ≡ true) ↔ ((a ≡ b) × (c ≡ d))
both_iff a b c d = (
  λ h. ground (arith, h, bytes_eq_iff a b, bytes_eq_iff c d),
  λ h. ground (arith, h.0, h.1, bytes_eq_iff a b, bytes_eq_iff c d),
)

-- The configuration on the chain is compatible exactly when it names the mint and the vault and has
-- the same attesters as the local ones, in whatever order.
pub config_is_compatible-Agrees :
    (to_string : Bytes → Text) (view : BridgeConfigView) (mint vault : Text) (attesters : Attesters)
    → (config_is_compatible to_string view mint vault attesters ≡ ok tt)
      ↔ Agrees to_string view mint vault attesters
unfolding config_is_compatible
config_is_compatible-Agrees to_string view mint vault attesters =
    let named = bytes_eq (to_string view.mint) mint && bytes_eq (to_string view.vault) vault in
    let all =
      then_iff (require named _)
        (require_each view.attesters attesters _ >> require_each attesters view.attesters _)
        (iff_trans (require_iff named _)
          (both_iff (to_string view.mint) mint (to_string view.vault) vault))
        (then_iff (require_each view.attesters attesters _)
          (require_each attesters view.attesters _) (require_each_iff view.attesters attesters _)
          (require_each_iff attesters view.attesters _)) in
    (
      λ h.
          let v = all.0 h in
          record {
            same_mint = v.0.0;
            same_vault = v.0.1;
            same_attesters = λ key. (v.1.0 key, v.1.1 key);
          },
      λ a. all.1 (
        (a.same_mint, a.same_vault),
        ((λ key. (a.same_attesters key).0), (λ key. (a.same_attesters key).1)),
      ),
    )
