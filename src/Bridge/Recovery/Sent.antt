-- ===== src/Bridge/Recovery/Sent.antt =====
-- bridge/src/recovery.rs and handlers.rs: the attestations that the workflow sends, against the
-- requests that the program accepts.
use canton_treasury_dvp.Base.{ℕ, zero, suc, Bool, false, ◌||◌, not, ◌==◌}
use canton_treasury_dvp.Escrow.Canonical.{direction_mint, receipt_locked, receipt_mint_authorized}
use canton_treasury_dvp.Escrow.Runtime.{Runtime}
use canton_treasury_dvp.Escrow.State.{LockReceipt}

-- Whether the signature of attester `index` is to be sent.
abbrev pub is_needed : Bool × Bool → ℕ → Bool
is_needed needed zero = needed.0
is_needed needed (suc zero) = needed.1
is_needed needed (suc (suc index)) = false

-- The receipt can be authorized for minting, or the request is not for a mint.
abbrev pub is_authorizable : ℕ → LockReceipt → Bool
is_authorizable direction r =
    not (direction == direction_mint)
    || r.status == receipt_locked
    || r.status == receipt_mint_authorized
