-- ===== src/Examples/Compatible.antt =====
-- The comparison of the program's configuration with local accounts, on keys that differ.
use canton_treasury_dvp.Base.{◌≡◌, refl, ok, replicate, ◌↔◌, ◌>>=◌}
use canton_treasury_dvp.Escrow.State.{Attesters, BridgeConfig}
use canton_treasury_dvp.Bridge.Setup.{decode_bridge_config, config_is_compatible}
use canton_treasury_dvp.Bridge.Setup.Compatible.{Agrees}
use canton_treasury_dvp.Bridge.Setup.Account.{
  config_account, view_of, HasLayout, config_account-Agrees,
}

abbrev config : BridgeConfig
config = record {
  chain_id = replicate 32 1;
  token_program = replicate 32 2;
  mint = replicate 32 3;
  vault = replicate 32 4;
  attesters = record { first = replicate 32 5; second = replicate 32 6; third = replicate 32 7 };
  bump = 254;
  vault_authority_bump = 255;
}

abbrev shuffled : Attesters
shuffled = record { first = replicate 32 7; second = replicate 32 5; third = replicate 32 6 }

laid_out : HasLayout (replicate 8 0) config
laid_out = record {
  in_front = refl;
  chain_id = refl;
  token_program = refl;
  mint = refl;
  vault = refl;
  one = refl;
  two = refl;
  three = refl;
}

config_account-Agrees_example :
    ((decode_bridge_config (config_account (replicate 8 0) config) >>= (λ view.
        config_is_compatible (λ key. key) view (replicate 32 3) (replicate 32 4) shuffled))
      ≡ ok tt)
    ↔ Agrees (λ key. key) (view_of config) (replicate 32 3) (replicate 32 4) shuffled
config_account-Agrees_example =
    config_account-Agrees (λ key. key) (replicate 8 0) config (replicate 32 3) (replicate 32 4)
      shuffled laid_out
