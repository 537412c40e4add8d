-- ===== src/Bridge/Ledger/Json.antt =====
-- bridge/src/canton_history.rs: the ledger's values and facts, read from JSON.
--
-- `Json` is `serde_json::Value`: an object is its members in the order in which they are iterated,
-- and a number, which the source never reads, is its text. The parser of a JSON text is a parameter.
pub mod Read
pub mod Printed
pub mod Log
use canton_treasury_dvp.Base.{
  ℕ, Bool, true, false, Option, none, some, List, [], ◌∷◌, ◌++◌, Result, ok, err, ◌>>=◌, ◌>>◌,
  ok_or, map_err, bytes_eq, codes, if◌then◌else◌, ◌==◌, length, drop,
}
use canton_treasury_dvp.Bridge.Units.{Text, is_empty, trim}
use canton_treasury_dvp.Bridge.Ledger.{LedgerValue, Fields, Values, Boxed, non_empty}
use canton_treasury_dvp.Bridge.Ledger.Facts.{
  CreatedFact, ExercisedFact, ArchivedFact, CantonHistory,
}
use canton_treasury_dvp.Bridge.Ledger.Steps.{starts_with}

mutual
  pub data Json : Type 0 where
    null : Json
    flag : Bool → Json
    number : Text → Json
    string : Text → Json
    array : Elements → Json
    object : Members → Json

  pub data Elements : Type 0 where
    no_more : Elements
    element : Json → Elements → Elements

  pub data Members : Type 0 where
    close : Members
    member : Text → Json → Members → Members

-- `object.get(name)`
unfoldable pub get : Members → Text → Option Json
get close name = none
get (member key value rest) name = elim (bytes_eq key name) [
  | true ↦ some value
  | false ↦ get rest name
]

-- `value.get(name)`, which only an object answers.
unfoldable pub get_member : Json → Text → Option Json
get_member null name = none
get_member (flag b) name = none
get_member (number n) name = none
get_member (string s) name = none
get_member (array es) name = none
get_member (object ms) name = get ms name

abbrev pub as_str : Option Json → Option Text
as_str none = none
as_str (some null) = none
as_str (some (flag b)) = none
as_str (some (number n)) = none
as_str (some (string s)) = some s
as_str (some (array es)) = none
as_str (some (object ms)) = none

abbrev pub as_bool : Option Json → Option Bool
as_bool none = none
as_bool (some null) = none
as_bool (some (flag b)) = some b
as_bool (some (number n)) = none
as_bool (some (string s)) = none
as_bool (some (array es)) = none
as_bool (some (object ms)) = none

-- `unwrap_or_default` of a text, and `unwrap_or(false)`.
abbrev pub text_or_empty : Option Text → Text
text_or_empty none = []
text_or_empty (some t) = t

abbrev pub or_false : Option Bool → Bool
or_false none = false
or_false (some b) = b

abbrev pub boxed : Option LedgerValue → Boxed
boxed none = Boxed.absent
boxed (some value) = Boxed.present value

-- The value of an object by its first tag among those of texts and Booleans.
unfoldable pub parse_leaf : Members → Option LedgerValue
unfolding get
parse_leaf ms = elim (as_str (get ms (codes "text"))) [
  | some t ↦ some (LedgerValue.text t)
  | none ↦ elim (as_str (get ms (codes "party"))) [
    | some t ↦ some (LedgerValue.party t)
    | none ↦ elim (as_str (get ms (codes "cid"))) [
      | some t ↦ some (LedgerValue.contract_id t)
      | none ↦ elim (as_str (get ms (codes "numeric"))) [
        | some t ↦ some (LedgerValue.numeric t)
        | none ↦ elim (as_bool (get ms (codes "bool"))) [
          | some b ↦ some (LedgerValue.bool b)
          | none ↦ none
        ]
      ]
    ]
  ]
]

-- The first of these that is there: a record, a list, an optional value, a variant.
abbrev pub parse_branch :
    Option Fields → Option Values → Option Boxed → Option LedgerValue → Option LedgerValue
parse_branch (some fs) list box tagged = some (LedgerValue.record_of fs)
parse_branch none (some vs) box tagged = some (LedgerValue.list_of vs)
parse_branch none none (some b) tagged = some (LedgerValue.optional b)
parse_branch none none none tagged = tagged

abbrev pub parse_object : Option LedgerValue → Option LedgerValue → Option LedgerValue
parse_object (some value) branch = some value
parse_object none branch = branch

-- `record_in`, `list_in`, `optional_in` and `variant_in` read the member of that name.
unfoldable mutual
  unfolding get parse_leaf

  pub parse_value : Json → Option LedgerValue
  parse_value null = none
  parse_value (flag b) = none
  parse_value (number n) = none
  parse_value (string s) = none
  parse_value (array es) = none
  parse_value (object ms) =
      parse_object (parse_leaf ms)
        (parse_branch (record_in ms) (list_in ms) (optional_in ms) (variant_in ms))

  pub record_in : Members → Option Fields
  record_in close = none
  record_in (member key value rest) = elim (bytes_eq key (codes "record")) [
    | true ↦ record_fields value
    | false ↦ record_in rest
  ]

  pub record_fields : Json → Option Fields
  record_fields null = none
  record_fields (flag b) = none
  record_fields (number n) = none
  record_fields (string s) = none
  record_fields (array es) = none
  record_fields (object ms) = some (parse_members ms)

  pub parse_members : Members → Fields
  parse_members close = Fields.end
  parse_members (member key value rest) = elim (parse_value value) [
    | some inner ↦ Fields.named key inner (parse_members rest)
    | none ↦ parse_members rest
  ]

  pub list_in : Members → Option Values
  list_in close = none
  list_in (member key value rest) = elim (bytes_eq key (codes "list")) [
    | true ↦ list_items value
    | false ↦ list_in rest
  ]

  pub list_items : Json → Option Values
  list_items null = none
  list_items (flag b) = none
  list_items (number n) = none
  list_items (string s) = none
  list_items (array es) = some (parse_elements es)
  list_items (object ms) = none

  pub parse_elements : Elements → Values
  parse_elements no_more = Values.nil
  parse_elements (element value rest) = elim (parse_value value) [
    | some inner ↦ Values.cons inner (parse_elements rest)
    | none ↦ parse_elements rest
  ]

  pub optional_in : Members → Option Boxed
  optional_in close = none
  optional_in (member key value rest) = elim (bytes_eq key (codes "optional")) [
    | true ↦ some (boxed (parse_value value))
    | false ↦ optional_in rest
  ]

  pub variant_in : Members → Option LedgerValue
  variant_in close = none
  variant_in (member key value rest) = elim (bytes_eq key (codes "variant")) [
    | true ↦ variant_value value
    | false ↦ variant_in rest
  ]

  pub variant_value : Json → Option LedgerValue
  variant_value null = none
  variant_value (flag b) = none
  variant_value (number n) = none
  variant_value (string s) = none
  variant_value (array es) = none
  variant_value (object ms) =
      some
        (LedgerValue.variant (text_or_empty (as_str (get ms (codes "tag")))) (boxed (value_in ms)))

  pub value_in : Members → Option LedgerValue
  value_in close = none
  value_in (member key value rest) = elim (bytes_eq key (codes "value")) [
    | true ↦ parse_value value
    | false ↦ value_in rest
  ]
