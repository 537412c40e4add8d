-- ===== src/Bridge/Ledger.antt =====
-- bridge/src/canton_history.rs: the values of the Canton ledger's records, and how the evidence
-- reads them.
pub mod Json
pub mod Facts
pub mod Steps
pub mod Binding
pub mod Operation
pub mod Connect
pub mod Completion
use canton_treasury_dvp.Base.{
  ℕ, Bool, true, false, ◌&&◌, ◌||◌, not, Option, none, some, List, [], ◌∷◌, ◌++◌, Result, ok, err,
  ◌>>=◌, ◌>>◌, require, ok_or, bytes_eq, codes, all, any, ◌==◌, if◌then◌else◌,
}
use canton_treasury_dvp.Bridge.Units.{Text, is_ascii_digit, is_empty}
use canton_treasury_dvp.Bridge.Evidence.{canton_amounts_match}

-- A record is its named fields in order; `absent` and `present` are the option of a box.
mutual
  pub data LedgerValue : Type 0 where
    text : Text → LedgerValue
    party : Text → LedgerValue
    contract_id : Text → LedgerValue
    numeric : Text → LedgerValue
    bool : Bool → LedgerValue
    record_of : Fields → LedgerValue
    list_of : Values → LedgerValue
    optional : Boxed → LedgerValue
    variant : Text → Boxed → LedgerValue

  pub data Fields : Type 0 where
    end : Fields
    named : Text → LedgerValue → Fields → Fields

  pub data Values : Type 0 where
    nil : Values
    cons : LedgerValue → Values → Values

  pub data Boxed : Type 0 where
    absent : Boxed
    present : LedgerValue → Boxed

-- The first field of a record with this label.
unfoldable pub find_label : Fields → Text → Option LedgerValue
find_label end name = none
find_label (named label value rest) name =
    let later = find_label rest name in if bytes_eq label name then some value else later

-- A field with a name: of the record itself, or else the first one inside.
unfoldable mutual
  unfolding find_label

  pub field : LedgerValue → Text → Option LedgerValue
  field (text t) name = none
  field (party t) name = none
  field (contract_id t) name = none
  field (numeric t) name = none
  field (bool b) name = none
  field (record_of fs) name = elim (find_label fs name) [
    | some value ↦ some value
    | none ↦ field_inside fs name
  ]
  field (list_of vs) name = field_items vs name
  field (optional b) name = field_boxed b name
  field (variant tag b) name = field_boxed b name

  pub field_inside : Fields → Text → Option LedgerValue
  field_inside end name = none
  field_inside (named label value rest) name = elim (field value name) [
    | some inner ↦ some inner
    | none ↦ field_inside rest name
  ]

  pub field_items : Values → Text → Option LedgerValue
  field_items nil name = none
  field_items (cons value rest) name = elim (field value name) [
    | some inner ↦ some inner
    | none ↦ field_items rest name
  ]

  pub field_boxed : Boxed → Text → Option LedgerValue
  field_boxed absent name = none
  field_boxed (present value) name = field value name

unfoldable mutual
  pub as_text : LedgerValue → Option Text
  as_text (text t) = some t
  as_text (party t) = some t
  as_text (contract_id t) = some t
  as_text (numeric t) = none
  as_text (bool b) = none
  as_text (record_of fs) = none
  as_text (list_of vs) = none
  as_text (optional b) = as_text_boxed b
  as_text (variant tag b) = none

  pub as_text_boxed : Boxed → Option Text
  as_text_boxed absent = none
  as_text_boxed (present value) = as_text value

unfoldable pub looks_numeric : Text → Bool
looks_numeric raw =
    not (is_empty raw) && all (λ b. is_ascii_digit b || b == b'.') raw && any is_ascii_digit raw

unfoldable mutual
  unfolding looks_numeric

  pub as_numeric : LedgerValue → Option Text
  as_numeric (numeric number) = some number
  as_numeric (text t) = if looks_numeric t then some t else none
  as_numeric (party t) = none
  as_numeric (contract_id t) = none
  as_numeric (bool b) = none
  as_numeric (record_of fs) = as_numeric_inside fs
  as_numeric (list_of vs) = none
  as_numeric (optional b) = as_numeric_boxed b
  as_numeric (variant tag b) = as_numeric_boxed b

  pub as_numeric_inside : Fields → Option Text
  as_numeric_inside end = none
  as_numeric_inside (named label value rest) = elim (as_numeric value) [
    | some number ↦ some number
    | none ↦ as_numeric_inside rest
  ]

  pub as_numeric_boxed : Boxed → Option Text
  as_numeric_boxed absent = none
  as_numeric_boxed (present value) = as_numeric value

-- `and_then`
abbrev pub and_then : Option LedgerValue → (LedgerValue → Option Text) → Option Text
and_then none f = none
and_then (some value) f = f value

unfoldable pub field_text : Option LedgerValue → Text → Option Text
field_text none name = none
field_text (some value) name = and_then (field value name) as_text

unfoldable pub field_numeric : Option LedgerValue → Text → Option Text
field_numeric none name = none
field_numeric (some value) name = and_then (field value name) as_numeric

-- `filter(|value| !value.is_empty())`
abbrev pub non_empty : Option Text → Option Text
non_empty none = none
non_empty (some t) = if is_empty t then none else some t

abbrev pub missing : Text → Text
missing label = codes "Canton ledger evidence is missing " ++ label

unfoldable pub require_text : LedgerValue → Text → Text → Result Text Text
require_text value name label = ok_or (non_empty (field_text (some value) name)) (missing label)

unfoldable pub require_numeric : LedgerValue → Text → Text → Result Text Text
require_numeric value name label =
    ok_or (non_empty (field_numeric (some value) name)) (missing label)

abbrev pub unwrap_or : Option LedgerValue → LedgerValue → LedgerValue
unwrap_or none value = value
unwrap_or (some inner) value = inner

-- The identifier and the administrator of an instrument.
unfoldable pub require_instrument : LedgerValue → Text → Result Text (Text × Text)
require_instrument value label = do
  let instrument = unwrap_or (field value (codes "instrumentId")) value
  id ←
      ok_or (non_empty (field_text (some instrument) (codes "id"))) (missing (label ++ codes " id"))
  admin ←
      ok_or (non_empty (field_text (some instrument) (codes "admin")))
        (missing (label ++ codes " admin"))
  ok (id, admin)

unfoldable pub amounts_match : Text → Text → Bool
unfolding canton_amounts_match
amounts_match left right = canton_amounts_match left right

unfoldable pub require_amount : Text → Text → Text → Result Text (Unit {0})
require_amount actual expected label =
    require (amounts_match actual expected) (label ++ codes " does not match")

unfoldable mutual
  pub value_contains_cid : LedgerValue → Text → Bool
  value_contains_cid (text t) cid = bytes_eq t cid
  value_contains_cid (party t) cid = false
  value_contains_cid (contract_id t) cid = bytes_eq t cid
  value_contains_cid (numeric t) cid = false
  value_contains_cid (bool b) cid = false
  value_contains_cid (record_of fs) cid = fields_contain_cid fs cid
  value_contains_cid (list_of vs) cid = items_contain_cid vs cid
  value_contains_cid (optional b) cid = boxed_contains_cid b cid
  value_contains_cid (variant tag b) cid = boxed_contains_cid b cid

  pub fields_contain_cid : Fields → Text → Bool
  fields_contain_cid end cid = false
  fields_contain_cid (named label value rest) cid =
      value_contains_cid value cid || fields_contain_cid rest cid

  pub items_contain_cid : Values → Text → Bool
  items_contain_cid nil cid = false
  items_contain_cid (cons value rest) cid =
      value_contains_cid value cid || items_contain_cid rest cid

  pub boxed_contains_cid : Boxed → Text → Bool
  boxed_contains_cid absent cid = false
  boxed_contains_cid (present value) cid = value_contains_cid value cid

abbrev pub one_if_some : Text → List Text
one_if_some t = if is_empty t then [] else t ∷ []

unfoldable mutual
  pub collect_cids : LedgerValue → List Text
  collect_cids (text t) = one_if_some t
  collect_cids (party t) = []
  collect_cids (contract_id t) = one_if_some t
  collect_cids (numeric t) = []
  collect_cids (bool b) = []
  collect_cids (record_of fs) = collect_fields fs
  collect_cids (list_of vs) = collect_items vs
  collect_cids (optional b) = collect_boxed b
  collect_cids (variant tag b) = collect_boxed b

  pub collect_fields : Fields → List Text
  collect_fields end = []
  collect_fields (named label value rest) = collect_cids value ++ collect_fields rest

  pub collect_items : Values → List Text
  collect_items nil = []
  collect_items (cons value rest) = collect_cids value ++ collect_items rest

  pub collect_boxed : Boxed → List Text
  collect_boxed absent = []
  collect_boxed (present value) = collect_cids value

-- `field(value, result_field).and_then(|result| field(result, "receiverHoldingCids"))`, collected.
abbrev pub collected : Option LedgerValue → List Text
collected none = []
collected (some value) = collect_cids value

unfoldable pub receiver_cids : LedgerValue → Text → List Text
receiver_cids value result_field = elim (field value result_field) [
  | none ↦ []
  | some result ↦ collected (field result (codes "receiverHoldingCids"))
]

abbrev pub is_text : Option Text → Text → Bool
is_text none t = false
is_text (some s) t = bytes_eq s t

-- The allocation that the record for one leg of the transfer names.
unfoldable mutual
  pub allocation_cid_for_leg : LedgerValue → Text → Option Text
  allocation_cid_for_leg (text t) leg = none
  allocation_cid_for_leg (party t) leg = none
  allocation_cid_for_leg (contract_id t) leg = none
  allocation_cid_for_leg (numeric t) leg = none
  allocation_cid_for_leg (bool b) leg = none
  allocation_cid_for_leg (record_of fs) leg =
      elim (is_text (field_text (some (record_of fs)) (codes "transferLegId")) leg) [
        | true ↦ non_empty (field_text (some (record_of fs)) (codes "allocationCid"))
        | false ↦ allocation_inside fs leg
      ]
  allocation_cid_for_leg (list_of vs) leg = allocation_items vs leg
  allocation_cid_for_leg (optional b) leg = allocation_boxed b leg
  allocation_cid_for_leg (variant tag b) leg = allocation_boxed b leg

  pub allocation_inside : Fields → Text → Option Text
  allocation_inside end leg = none
  allocation_inside (named label value rest) leg = elim (allocation_cid_for_leg value leg) [
    | some cid ↦ some cid
    | none ↦ allocation_inside rest leg
  ]

  pub allocation_items : Values → Text → Option Text
  allocation_items nil leg = none
  allocation_items (cons value rest) leg = elim (allocation_cid_for_leg value leg) [
    | some cid ↦ some cid
    | none ↦ allocation_items rest leg
  ]

  pub allocation_boxed : Boxed → Text → Option Text
  allocation_boxed absent leg = none
  allocation_boxed (present value) leg = allocation_cid_for_leg value leg
