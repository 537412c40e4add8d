-- ===== src/Bridge/Journal.antt =====
-- bridge/src/journal.rs and bridge/src/workflow.rs: the record of the steps that an operation has
-- completed, and how the workflow writes it.
pub mod Progress
use canton_treasury_dvp.Base.{
  ℕ, Bool, true, false, not, Option, none, some, List, [], ◌∷◌, Bytes, bytes_eq, codes, ltb, leb,
  ◌==◌, ℤ, if◌then◌else◌,
}
use canton_treasury_dvp.Bridge.Units.{Text}

pub data Step : Type 0 where
  accounts reserved locked mint_approved canton_minted trade_prepared reassigned : Step
  settled redeemed release_approved released zama_redeemed cancelled : Step

-- The names, in the order of the tests.
abbrev pub named_steps : List (Text × Step)
named_steps =
    (codes "accounts", accounts)
    ∷ (codes "reserved", reserved)
    ∷ (codes "locked", locked)
    ∷ (codes "mint_approved", mint_approved)
    ∷ (codes "canton_minted", canton_minted)
    ∷ (codes "trade_prepared", trade_prepared)
    ∷ (codes "reassigned", reassigned)
    ∷ (codes "settled", settled)
    ∷ (codes "redeemed", redeemed)
    ∷ (codes "release_approved", release_approved)
    ∷ (codes "released", released)
    ∷ (codes "zama_redeemed", zama_redeemed)
    ∷ (codes "cancelled", cancelled)
    ∷ []

abbrev pub find_step : List (Text × Step) → Text → Option Step
find_step [] name = none
find_step ((n, step) ∷ steps) name = if bytes_eq n name then some step else find_step steps name

-- `Step::parse`; no name of a step is an error.
unfoldable pub parse : Text → Option Step
parse name = find_step named_steps name

unfoldable pub rank : Step → ℕ
rank accounts = 1
rank reserved = 2
rank locked = 3
rank mint_approved = 4
rank canton_minted = 5
rank trade_prepared = 6
rank reassigned = 7
rank settled = 8
rank redeemed = 9
rank release_approved = 10
rank released = 11
rank zama_redeemed = 12
rank cancelled = 13

pub record Journal : Type 0 where
  pub operation_hex : Text
  pub reservation_hex : Text
  pub lock_id : Text
  pub completed : Option Step
  pub mint : Text
  pub source : Text
  pub vault : Text
  pub payout_destination : Text
  pub refund_destination : Text
  pub decimals : ℕ
  pub base_units : ℕ
  pub canton_amount : Text
  pub mint_expiry : ℤ
  pub mint_holding : Text
  pub seller_holding : Text
  pub buyer_treasury : Text
  pub lock_signature : Text
  pub release_signature : Text
  pub lock_proof_hex : Text
  pub release_expiry : ℤ
  pub release_proof_hex : Text
  pub release_transfer_hex : Text
  pub release_equality : Text
  pub release_validity : Text
  pub release_range : Text
  pub fault_injected_chain_time : ℤ
  pub fault_recovered_chain_time : ℤ
  pub mint_approval_tx_a : Text
  pub mint_approval_sig_a : Text
  pub mint_approval_tx_b : Text
  pub mint_approval_sig_b : Text
  pub zama_reserve_tx : Text
  pub zama_reserve_gas : Text
  pub zama_finalize_tx : Text
  pub zama_finalize_gas : Text
  pub zama_cancel_tx : Text
  pub zama_cancel_gas : Text
  pub zama_redeem_tx : Text
  pub zama_redeem_gas : Text

unfoldable pub reached : Journal → Step → Bool
unfolding rank
reached j step = elim j.completed [ none ↦ false | some done ↦ leb (rank step) (rank done) ]

unfoldable pub max_completed : Step → Option Step → Step
unfolding rank
max_completed step none = step
max_completed step (some done) = if ltb (rank step) (rank done) then done else step

abbrev pub is_step : Step → Option Step → Bool
is_step step none = false
is_step step (some s) = rank s == rank step

-- `apply_zama_receipt`: the transaction and its gas, empty where there is none.
abbrev pub unwrap_or_default : Option Text → Text
unwrap_or_default none = []
unwrap_or_default (some t) = t

unfoldable pub apply_zama_receipt : Journal → Text → Option Text → Option Text → Journal
apply_zama_receipt j kind tx_hash gas_used =
    let hash = unwrap_or_default tx_hash in
    let gas = unwrap_or_default gas_used in
    if bytes_eq kind (codes "reserve")
    then record j { zama_reserve_tx = hash; zama_reserve_gas = gas }
    else if bytes_eq kind (codes "finalize")
    then record j { zama_finalize_tx = hash; zama_finalize_gas = gas }
    else if bytes_eq kind (codes "cancel")
    then record j { zama_cancel_tx = hash; zama_cancel_gas = gas }
    else if bytes_eq kind (codes "redeem")
    then record j { zama_redeem_tx = hash; zama_redeem_gas = gas }
    else j

abbrev pub is_blank : Text → Bool
is_blank [] = true
is_blank (c ∷ t) = false

-- The first and the second approval for the mint that this run has submitted.
abbrev pub record_first_approval : Journal → List (Text × Text) → Journal
record_first_approval j [] = j
record_first_approval j ((tx, sig) ∷ rest) =
    if is_blank j.mint_approval_tx_a
    then record j { mint_approval_tx_a = tx; mint_approval_sig_a = sig }
    else j

abbrev pub record_second_approval : Journal → List (Text × Text) → Journal
record_second_approval j [] = j
record_second_approval j (only ∷ []) =
    if not (bytes_eq j.mint_approval_tx_a only.0)
    then record j { mint_approval_tx_b = only.0; mint_approval_sig_b = only.1 }
    else j
record_second_approval j (first ∷ second ∷ rest) = record j {
  mint_approval_tx_b = second.0;
  mint_approval_sig_b = second.1;
}

unfoldable pub record_mint_approvals : Journal → List (Text × Text) → Journal
record_mint_approvals j minted = record_second_approval (record_first_approval j minted) minted
