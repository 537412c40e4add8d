-- ===== src/Bridge/Canonical/Agreement.antt =====
-- bridge/src/canonical.rs beside the program's canonical.rs.
use canton_treasury_dvp.Base.{ℕ, ◌≡◌, refl, Bytes}
use canton_treasury_dvp.Escrow.Canonical.{Operation}
use canton_treasury_dvp.Escrow.Canonical as Checked
use canton_treasury_dvp.Bridge.Canonical as Workflow

-- For every hash, the digest, the amount commitment and the proof commitment that the workflow
-- computes are those that the program computes from the same fields.
pub digests_agree :
    (hash : Bytes → Bytes) (o : Operation) (amount : ℕ)
    (blinding decryptable lo hi equality validity range : Bytes)
    → (Workflow.operation_digest hash o ≡ Checked.operation_digest hash o)
      × (Workflow.amount_commitment hash amount blinding
          ≡ Checked.amount_commitment hash amount blinding)
      × (Workflow.proof_commitment hash decryptable lo hi equality validity range
          ≡ Checked.proof_commitment hash decryptable lo hi equality validity range)
unfolding Workflow.operation_digest Checked.operation_digest Workflow.amount_commitment
    Checked.amount_commitment Workflow.proof_commitment Checked.proof_commitment Workflow.sha256
    Checked.hashv
digests_agree hash o amount blinding decryptable lo hi equality validity range = (refl, refl, refl)
