-- ===== src/Bridge/Setup.antt =====
-- bridge/src/setup.rs: the bridge's configuration on the chain, compared with the local accounts.
pub mod Account
pub mod Compatible
use canton_treasury_dvp.Base.{
  ◌+◌, leb, length, drop, slice, Bool, true, false, ◌&&◌, ◌||◌, List, [], ◌∷◌, Bytes, Result, ok,
  err, ◌>>◌, require, codes, bytes_eq,
}
use canton_treasury_dvp.Escrow.State.{Attesters}
use canton_treasury_dvp.Bridge.Units.{Text}

pub record BridgeConfigView : Type 0 where
  pub mint : Bytes
  pub vault : Bytes
  pub attesters : Attesters

-- The bytes of a configuration account: the discriminator, then keys of 32 bytes.
unfoldable pub decode_bridge_config : Bytes → Result Text BridgeConfigView
decode_bridge_config bytes = do
  require (leb (8 + 32 + 32 + 32 + 32 + 96) (length bytes))
      (codes "bridge config account is truncated")
  let body = drop 8 bytes
  ok (record {
    mint = slice 64 32 body;
    vault = slice 96 32 body;
    attesters = record {
      first = slice 128 32 body;
      second = slice 160 32 body;
      third = slice 192 32 body;
    };
  })

unfoldable pub contains : Attesters → Bytes → Bool
contains keys key = bytes_eq keys.first key || bytes_eq keys.second key || bytes_eq keys.third key

-- A loop that requires each key of the one among those of the other.
unfoldable pub require_each : Attesters → Attesters → Text → Result Text (Unit {0})
unfolding contains
require_each keys within message = do
  require (contains within keys.first) message
  require (contains within keys.second) message
  require (contains within keys.third) message

unfoldable pub config_is_compatible :
    (Bytes → Text) → BridgeConfigView → Text → Text → Attesters → Result Text (Unit {0})
unfolding require_each
config_is_compatible to_string view mint vault attesters = do
  require (bytes_eq (to_string view.mint) mint && bytes_eq (to_string view.vault) vault)
      (codes "on-chain bridge config mint/vault do not match the recorded accounts")
  require_each view.attesters attesters (codes "on-chain attester is not a local attester")
  require_each attesters view.attesters (codes "local attester is not configured on-chain")
