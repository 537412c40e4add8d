-- ===== src/Examples/Sent.antt =====
-- The attestations that the workflow sends, for the second signature of the mint of
-- Examples/Setting.antt.
use canton_treasury_dvp.Base.{false, pos}
use canton_treasury_dvp.Escrow.Canonical.{direction_mint, receipt_locked}
use canton_treasury_dvp.Examples.Setting.{key, operation, signed_by, until_mint}
use canton_treasury_dvp.Escrow.Accounts.{Opened}
use canton_treasury_dvp.Escrow.Ed25519.{Ed25519Approval}
use canton_treasury_dvp.Examples.Setting.{signed_by, digest, until_mint}
use canton_treasury_dvp.Examples.Programs.{receipt_of_status}

abbrev once_signed : Opened
once_signed = record {
  config = record {
    chain_id = key 60;
    token_program = key 20;
    mint = key 10;
    vault = key 11;
    attesters = record { first = key 1; second = key 2; third = key 3 };
    bump = 255;
    vault_authority_bump = 255;
  };
  receipt = receipt_of_status receipt_locked;
  approval = record {
    operation = operation;
    direction = direction_mint;
    digest = digest direction_mint;
    signer_bitmap = 1;
    consumed = false;
    bump = 255;
    expiry = pos 1000;
  };
}

abbrev second : Ed25519Approval
second = record { attester = key 2; digest = digest direction_mint }
