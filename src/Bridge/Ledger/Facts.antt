-- ===== src/Bridge/Ledger/Facts.antt =====
-- bridge/src/canton_history.rs: the facts of the ledger's history, and the search for one of them.
pub mod Search
use canton_treasury_dvp.Base.{
  ℕ, ◌+◌, ◌*◌, ◌-◌, Bool, true, false, ◌&&◌, ◌||◌, Option, none, some, List, [], ◌∷◌, ◌++◌, Result,
  ok, err, bytes_eq, codes, any, length, drop, leb, if◌then◌else◌, filter, sort_by_key, dedup_by,
  max_by_key,
}
use canton_treasury_dvp.Bridge.Units.{Text}
use canton_treasury_dvp.Bridge.Ledger.{LedgerValue, missing}

pub record CreatedFact : Type 0 where
  pub template : Text
  pub cid : Text
  pub update_id : Text
  pub arguments : Option LedgerValue

pub record ExercisedFact : Type 0 where
  pub template : Text
  pub choice : Text
  pub cid : Text
  pub consuming : Bool
  pub update_id : Text
  pub argument : Option LedgerValue
  pub result : Option LedgerValue

pub record ArchivedFact : Type 0 where
  pub template : Text
  pub cid : Text
  pub update_id : Text

pub record CantonHistory : Type 0 where
  pub created : List CreatedFact
  pub exercised : List ExercisedFact
  pub archived : List ArchivedFact

abbrev pub is_nil {ℓ} : {A : Type ℓ} → List A → Bool
is_nil [] = true
is_nil (x ∷ xs) = false

unfoldable pub is_empty_history : CantonHistory → Bool
is_empty_history h = is_nil h.created && is_nil h.exercised && is_nil h.archived

abbrev pub is_some {ℓ} : {A : Type ℓ} → Option A → Bool
is_some none = false
is_some (some a) = true

-- The order of Rust's Booleans: false is below true.
abbrev pub rank_of : Bool → ℕ
rank_of false = 0
rank_of true = 1

unfoldable pub ends_with : Text → Text → Bool
ends_with t suffix =
    leb (length suffix) (length t) && bytes_eq (drop (length t - length suffix) t) suffix

unfoldable pub template_ends : CreatedFact → Text → Bool
unfolding ends_with
template_ends fact suffix = bytes_eq fact.template suffix || ends_with fact.template suffix

unfoldable pub consumed_in : CantonHistory → Text → Text → Bool
consumed_in history cid update_id =
    any (λ fact. bytes_eq fact.cid cid && bytes_eq fact.update_id update_id) history.archived
    || any (λ fact. fact.consuming && bytes_eq fact.cid cid && bytes_eq fact.update_id update_id)
        history.exercised

unfoldable pub created_by_cid : CantonHistory → Text → Option CreatedFact
created_by_cid history cid =
    max_by_key (λ fact. rank_of (is_some fact.arguments))
      (filter (λ fact. bytes_eq fact.cid cid) history.created)

abbrev pub another_operation : Text
another_operation = codes "Canton ledger evidence belongs to another operation"

-- The one fact that is left.
abbrev pub only_one {ℓ} : {A : Type ℓ} → List A → Text → Result Text A
only_one [] name = err (missing name)
only_one (fact ∷ []) name = ok fact
only_one (fact ∷ next ∷ rest) name = err another_operation

abbrev pub created_key : CreatedFact → ℕ
created_key fact = rank_of (is_some fact.arguments)

abbrev pub same_created : CreatedFact → CreatedFact → Bool
same_created a b = bytes_eq a.cid b.cid && bytes_eq a.update_id b.update_id

unfoldable pub unique_created :
    CantonHistory → Text → (CreatedFact → Bool) → Result Text CreatedFact
unfolding template_ends
unique_created history template pred =
    only_one
      (dedup_by same_created (
        sort_by_key created_key
          (filter (λ fact. template_ends fact template && pred fact) history.created)))
      template

-- The order of the pairs of `argument.is_some()` and `result.is_some()`.
abbrev pub exercised_key : ExercisedFact → ℕ
exercised_key fact = 2 * rank_of (is_some fact.argument) + rank_of (is_some fact.result)

abbrev pub same_exercised : ExercisedFact → ExercisedFact → Bool
same_exercised a b =
    bytes_eq a.cid b.cid && bytes_eq a.update_id b.update_id && bytes_eq a.choice b.choice

unfoldable pub unique_exercised :
    CantonHistory → Text → (ExercisedFact → Bool) → Result Text ExercisedFact
unique_exercised history choice pred =
    only_one
      (dedup_by same_exercised (
        sort_by_key exercised_key
          (filter (λ fact. bytes_eq fact.choice choice && pred fact) history.exercised)))
      choice
