-- ===== src/Bridge/Ledger/Binding.antt =====
-- bridge/src/canton_history.rs: the binding of a lock to a trade, and the holding that an allocation
-- locks.
use canton_treasury_dvp.Base.{
  Bool, true, false, ◌&&◌, not, Option, none, some, List, [], ◌∷◌, ◌++◌, Result, ok, ◌>>=◌, ◌>>◌,
  require, ok_or, bytes_eq, codes, any, if◌then◌else◌, filter, max_by_key,
}
use canton_treasury_dvp.Bridge.Units.{Text}
use canton_treasury_dvp.Bridge.Ledger.{
  LedgerValue, field, field_text, non_empty, missing, require_text, is_text, collect_cids,
}
use canton_treasury_dvp.Bridge.Ledger.Facts.{
  CreatedFact, CantonHistory, template_ends, unique_created, unique_exercised, consumed_in,
  created_by_cid, is_nil, is_some, rank_of, another_operation,
}
use canton_treasury_dvp.Bridge.Ledger.Steps.{same_text, retitle}

-- The only element of a list of one.
abbrev pub single : List Text → Option Text
single [] = none
single (cid ∷ []) = some cid
single (cid ∷ next ∷ rest) = none

abbrev pub single_cid : Option LedgerValue → Option Text
single_cid none = none
single_cid (some value) = single (collect_cids value)

abbrev pub or_else : Option Text → Option Text → Option Text
or_else none other = other
or_else (some t) other = some t

unfoldable pub allocation_locked_holding : CantonHistory → Text → Text → Result Text Text
allocation_locked_holding history allocation_cid allocate_update = do
  allocation ←
      ok_or (created_by_cid history allocation_cid)
        (missing (codes "the payment allocation contract"))
  same_text allocation.update_id allocate_update
      (codes "payment allocation was not created by AllocationFactory_Allocate")
  args ← ok_or allocation.arguments (missing (codes "payment allocation contract arguments"))
  ok_or
      (or_else (non_empty (field_text (some args) (codes "lockedHoldingCid")))
        (single_cid (field args (codes "holdingCids"))))
      (missing (codes "the locked payment holding"))

-- Adds a text that is there and not yet listed, at the end.
abbrev pub push_new : Option Text → List Text → List Text
push_new none known = known
push_new (some t) known = if any (λ value. bytes_eq value t) known then known else known ++ (t ∷ [])

-- The different texts of one field, in the order of the facts.
unfoldable pub distinct_texts : Text → List CreatedFact → List Text → List Text
distinct_texts name [] known = known
distinct_texts name (fact ∷ facts) known =
    distinct_texts name facts (push_new (field_text fact.arguments name) known)

abbrev pub is_only : List Text → Text → Bool
is_only [] t = false
is_only (s ∷ []) t = bytes_eq s t
is_only (s ∷ next ∷ rest) t = false

abbrev pub has_one : List Text → Bool
has_one [] = false
has_one (s ∷ []) = true
has_one (s ∷ next ∷ rest) = false

abbrev pub trade_binding : Text
trade_binding = codes "BridgeTradeBinding"

unfoldable pub binding_for_lock : CantonHistory → Text → Text → Result Text CreatedFact
unfolding template_ends
binding_for_lock history lock_id mint_holding = do
  let found =
      filter
        (λ fact.
          template_ends fact trade_binding
          && is_text (field_text fact.arguments (codes "lockId")) lock_id)
        history.created
  require (not (is_nil found)) (missing trade_binding)
  require
      (is_only (distinct_texts (codes "mintHoldingCid") found []) mint_holding
        && has_one (distinct_texts (codes "tradeCid") found []))
      another_operation
  ok_or
      (max_by_key (λ fact. rank_of (is_some (field_text fact.arguments (codes "sellerPaymentCid"))))
        found)
      (missing trade_binding)

-- The mint reference of the lock names the same holding, registry and buyer.
unfoldable pub mint_reference :
    CantonHistory → Text → Text → Text → Text → Text → Result Text CreatedFact
mint_reference history lock_id mint_holding minted_update cash_registry buyer = do
  let not_minted = codes "mint reference was not created by Gateway_Mint"
  minted ← retitle not_minted (
      unique_exercised history (codes "Gateway_Mint")
        (λ fact. bytes_eq fact.update_id minted_update))
  mint_ref ← retitle not_minted (
      unique_created history (codes "BridgeMintRef") (λ fact.
        bytes_eq fact.update_id minted_update
        && is_text (field_text fact.arguments (codes "lockId")) lock_id))
  ref_args ← ok_or mint_ref.arguments (missing (codes "mint reference arguments"))
  lock ← require_text ref_args (codes "lockId") (codes "mint reference lock")
  same_text lock lock_id another_operation
  holding ← require_text ref_args (codes "mintHoldingCid") (codes "mint reference holding")
  same_text holding mint_holding
      (codes "mint reference does not name the same holding as MintedLock")
  registry ← require_text ref_args (codes "cashRegistry") (codes "mint reference registry")
  same_text registry cash_registry (codes "mint reference registry does not match MintedLock")
  ref_buyer ← require_text ref_args (codes "buyer") (codes "mint reference buyer")
  same_text ref_buyer buyer (codes "mint reference buyer does not match MintedLock")
  ok mint_ref

-- The binding is created by the choice that consumes the mint reference.
unfoldable pub bound_by_reference :
    CantonHistory → Text → Text → CreatedFact → Result Text (Unit {0})
bound_by_reference history lock_id mint_holding mint_ref = do
  let not_bound = codes "binding was not created by consuming the mint reference"
  bind ← retitle not_bound (
      unique_exercised history (codes "BridgeMintRef_Bind")
        (λ fact. fact.consuming && bytes_eq fact.cid mint_ref.cid))
  require (consumed_in history mint_ref.cid bind.update_id) not_bound
  bound ← retitle not_bound (
      unique_created history trade_binding (λ fact.
        bytes_eq fact.update_id bind.update_id
        && is_text (field_text fact.arguments (codes "lockId")) lock_id))
  bound_args ← ok_or bound.arguments (missing (codes "BridgeTradeBinding arguments"))
  holding ← require_text bound_args (codes "mintHoldingCid") (codes "bound mint holding")
  same_text holding mint_holding another_operation
  lock ← require_text bound_args (codes "lockId") (codes "bound lock")
  same_text lock lock_id another_operation

unfoldable pub authorized_binding :
    CantonHistory → Text → Text → Text → Text → Text → Result Text CreatedFact
unfolding mint_reference bound_by_reference binding_for_lock
authorized_binding history lock_id mint_holding minted_update cash_registry buyer = do
  mint_ref ← mint_reference history lock_id mint_holding minted_update cash_registry buyer
  bound_by_reference history lock_id mint_holding mint_ref
  binding_for_lock history lock_id mint_holding
