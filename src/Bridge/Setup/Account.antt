-- ===== src/Bridge/Setup/Account.antt =====
-- bridge/src/setup.rs: the configuration account that the program writes, read by the workflow.
use canton_treasury_dvp.Base.{
  ℕ, ◌+◌, ◌≡◌, refl, sym, ap, ◌∙◌, true, [], ◌∷◌, ◌++◌, Bytes, ok, leb, length, take, drop,
  length-append, take-append, drop-append, drop-drop, ◌↔◌, ◌>>=◌, subst,
}
use canton_treasury_dvp.Escrow.State.{Attesters, BridgeConfig}
use canton_treasury_dvp.Bridge.Units.{Text}
use canton_treasury_dvp.Bridge.Setup.{BridgeConfigView, decode_bridge_config, config_is_compatible}
use canton_treasury_dvp.Bridge.Setup.Compatible.{Agrees, config_is_compatible-Agrees}

-- The bytes of the account: Borsh writes the fields in their order, behind the discriminator.
abbrev pub config_account : Bytes → BridgeConfig → Bytes
config_account discriminator c =
    discriminator
    ++ (c.chain_id
        ++ (c.token_program
            ++ (c.mint
                ++ (c.vault
                    ++ (c.attesters.first
                        ++ (c.attesters.second
                            ++ (c.attesters.third ++ (c.bump ∷ c.vault_authority_bump ∷ []))))))))

abbrev pub view_of : BridgeConfig → BridgeConfigView
view_of c = record { mint = c.mint; vault = c.vault; attesters = c.attesters }

-- A discriminator of 8 bytes and keys of 32.
pub record HasLayout (discriminator : Bytes) (c : BridgeConfig) : Type 0 where
  pub in_front : length discriminator ≡ 8
  pub chain_id : length c.chain_id ≡ 32
  pub token_program : length c.token_program ≡ 32
  pub mint : length c.mint ≡ 32
  pub vault : length c.vault ≡ 32
  pub one : length c.attesters.first ≡ 32
  pub two : length c.attesters.second ≡ 32
  pub three : length c.attesters.third ≡ 32

-- The next key of 32 bytes, and where the rest starts.
step :
    (n m : ℕ) (bytes key rest : Bytes)
    → drop n bytes ≡ key ++ rest
    → length key ≡ 32
    → n + 32 ≡ m
    → (take 32 (drop n bytes) ≡ key) × (drop m bytes ≡ rest)
step n m bytes key rest e h at = (
  ap (take 32) e ∙ take-append 32 key rest h,
  sym (drop-drop n 32 m bytes at) ∙ ap (drop 32) e ∙ drop-append 32 key rest h,
)

account_decoded :
    (discriminator : Bytes) (c : BridgeConfig)
    → HasLayout discriminator c
    → decode_bridge_config (config_account discriminator c) ≡ ok (view_of c)
unfolding decode_bridge_config
account_decoded discriminator c l =
    let end : Bytes = c.bump ∷ c.vault_authority_bump ∷ [] in
    let f8 = c.attesters.third ++ end in
    let f7 = c.attesters.second ++ f8 in
    let f6 = c.attesters.first ++ f7 in
    let f5 = c.vault ++ f6 in
    let f4 = c.mint ++ f5 in
    let f3 = c.token_program ++ f4 in
    let f2 = c.chain_id ++ f3 in
    let body : drop 8 (discriminator ++ f2) ≡ f2 = drop-append 8 discriminator f2 l.in_front in
    let s0 = step 0 32 f2 c.chain_id f3 refl l.chain_id refl in
    let s1 = step 32 64 f2 c.token_program f4 s0.1 l.token_program refl in
    let s2 = step 64 96 f2 c.mint f5 s1.1 l.mint refl in
    let s3 = step 96 128 f2 c.vault f6 s2.1 l.vault refl in
    let s4 = step 128 160 f2 c.attesters.first f7 s3.1 l.one refl in
    let s5 = step 160 192 f2 c.attesters.second f8 s4.1 l.two refl in
    let s6 = step 192 224 f2 c.attesters.third end s5.1 l.three refl in
    let long : leb 232 (length (discriminator ++ f2)) ≡ true =
      rw
        (
          length-append discriminator f2,
          length-append c.chain_id f3,
          length-append c.token_program f4,
          length-append c.mint f5,
          length-append c.vault f6,
          length-append c.attesters.first f7,
          length-append c.attesters.second f8,
          length-append c.attesters.third end,
          l.in_front,
          l.chain_id,
          l.token_program,
          l.mint,
          l.vault,
          l.one,
          l.two,
          l.three,
        )
        refl in
    rw (long, body, s2.0, s3.0, s4.0, s5.0, s6.0) refl

-- The workflow accepts the configuration account that the program writes, where the keys have their
-- lengths, exactly when the configuration has the local mint and vault and the local attesters, in
-- whatever order.
pub config_account-Agrees :
    (to_string : Bytes → Text) (discriminator : Bytes) (c : BridgeConfig) (mint vault : Text)
    (attesters : Attesters)
    → HasLayout discriminator c
    → ((decode_bridge_config (config_account discriminator c)
          >>= (λ view. config_is_compatible to_string view mint vault attesters))
        ≡ ok tt)
      ↔ Agrees to_string (view_of c) mint vault attesters
config_account-Agrees to_string discriminator c mint vault attesters l =
    subst
      (λ read.
        ((read >>= (λ view. config_is_compatible to_string view mint vault attesters)) ≡ ok tt)
        ↔ Agrees to_string (view_of c) mint vault attesters)
      (sym (account_decoded discriminator c l))
      (config_is_compatible-Agrees to_string (view_of c) mint vault attesters)
