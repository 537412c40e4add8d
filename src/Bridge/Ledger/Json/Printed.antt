-- ===== src/Bridge/Ledger/Json/Printed.antt =====
-- bridge/src/canton_history.rs: the JSON that canton/scripts/verify-bridge-completion.canton prints
-- for a value, as `serde_json` holds it, and its reading. An object is a map with its keys in order:
-- each printed member goes to its place, and one with the same key is replaced.
use canton_treasury_dvp.Base.{
  ◌≡◌, refl, ap, some, codes, bytes_eq, Bool, true, false, ◌&&◌, ◌||◌, ltb, ◌==◌, [], ◌∷◌,
  Bool-cases, inl, inr,
}
use canton_treasury_dvp.Bridge.Units.{Text}
use canton_treasury_dvp.Bridge.Ledger.{LedgerValue, Fields, Values, Boxed}
use canton_treasury_dvp.Bridge.Ledger.Json.{
  Json, Elements, Members, boxed, get, parse_leaf, parse_value, record_in, record_fields,
  parse_members, list_in, list_items, parse_elements, optional_in, variant_in, variant_value,
  value_in,
}

-- The order of keys.
unfoldable pub precedes : Text → Text → Bool
precedes [] [] = false
precedes [] (b ∷ t) = true
precedes (a ∷ s) [] = false
precedes (a ∷ s) (b ∷ t) = ltb a b || (a == b && precedes s t)

-- `map.insert(key, value)`
unfoldable pub insert_member : Text → Json → Members → Members
unfolding precedes
insert_member key value Members.close = Members.member key value Members.close
insert_member key value (Members.member k v rest) = elim (bytes_eq k key) [
  | true ↦ Members.member key value rest
  | false ↦ elim (precedes key k) [
    | true ↦ Members.member key value (Members.member k v rest)
    | false ↦ Members.member k v (insert_member key value rest)
  ]
]

-- The same of a record's fields.
unfoldable pub insert_field : Text → LedgerValue → Fields → Fields
unfolding precedes
insert_field key value Fields.end = Fields.named key value Fields.end
insert_field key value (Fields.named k v rest) = elim (bytes_eq k key) [
  | true ↦ Fields.named key value rest
  | false ↦ elim (precedes key k) [
    | true ↦ Fields.named key value (Fields.named k v rest)
    | false ↦ Fields.named k v (insert_field key value rest)
  ]
]

-- A value with the fields of each record, at every depth, in the order of their labels; of fields
-- with one label, the last is kept.
unfoldable mutual
  unfolding insert_field

  pub in_order : LedgerValue → LedgerValue
  in_order (LedgerValue.text t) = LedgerValue.text t
  in_order (LedgerValue.party t) = LedgerValue.party t
  in_order (LedgerValue.contract_id t) = LedgerValue.contract_id t
  in_order (LedgerValue.numeric t) = LedgerValue.numeric t
  in_order (LedgerValue.bool b) = LedgerValue.bool b
  in_order (LedgerValue.record_of fs) = LedgerValue.record_of (fields_in_order fs Fields.end)
  in_order (LedgerValue.list_of vs) = LedgerValue.list_of (items_in_order vs)
  in_order (LedgerValue.optional b) = LedgerValue.optional (boxed_in_order b)
  in_order (LedgerValue.variant tag b) = LedgerValue.variant tag (boxed_in_order b)

  pub fields_in_order : Fields → Fields → Fields
  fields_in_order Fields.end before = before
  fields_in_order (Fields.named label value rest) before =
      fields_in_order rest (insert_field label (in_order value) before)

  pub items_in_order : Values → Values
  items_in_order Values.nil = Values.nil
  items_in_order (Values.cons value rest) = Values.cons (in_order value) (items_in_order rest)

  pub boxed_in_order : Boxed → Boxed
  boxed_in_order Boxed.absent = Boxed.absent
  boxed_in_order (Boxed.present value) = Boxed.present (in_order value)

abbrev pub single : Text → Json → Json
single tag value = Json.object (Members.member tag value Members.close)

unfoldable mutual
  unfolding insert_member

  pub printed : LedgerValue → Json
  printed (LedgerValue.text t) = single (codes "text") (Json.string t)
  printed (LedgerValue.party t) = single (codes "party") (Json.string t)
  printed (LedgerValue.contract_id t) = single (codes "cid") (Json.string t)
  printed (LedgerValue.numeric t) = single (codes "numeric") (Json.string t)
  printed (LedgerValue.bool b) = single (codes "bool") (Json.flag b)
  printed (LedgerValue.record_of fs) =
      single (codes "record") (Json.object (printed_fields fs Members.close))
  printed (LedgerValue.list_of vs) = single (codes "list") (Json.array (printed_items vs))
  printed (LedgerValue.optional b) = single (codes "optional") (printed_boxed b)
  printed (LedgerValue.variant tag b) = single (codes "variant") (
      Json.object (
        Members.member (codes "tag") (Json.string tag)
          (Members.member (codes "value") (printed_boxed b) Members.close)))

  pub printed_fields : Fields → Members → Members
  printed_fields Fields.end before = before
  printed_fields (Fields.named label value rest) before =
      printed_fields rest (insert_member label (printed value) before)

  pub printed_items : Values → Elements
  printed_items Values.nil = Elements.no_more
  printed_items (Values.cons value rest) = Elements.element (printed value) (printed_items rest)

  pub printed_boxed : Boxed → Json
  printed_boxed Boxed.absent = Json.null
  printed_boxed (Boxed.present value) = printed value

-- The members of an object, each of which is read as the field beside it.
data Reads : Members → Fields → Type 0 where
  nothing : Reads Members.close Fields.end
  field :
      (label : Text) {json : Json} {value : LedgerValue} {ms : Members} {fs : Fields}
      → parse_value json ≡ some value
      → Reads ms fs
      → Reads (Members.member label json ms) (Fields.named label value fs)

parse_members-Reads : {ms : Members} {fs : Fields} → Reads ms fs → parse_members ms ≡ fs
unfolding parse_value
parse_members-Reads nothing = refl
parse_members-Reads (field label {value = value} read rest) =
    rw read (ap (Fields.named label value) (parse_members-Reads rest))

insert_member-Reads :
    (key : Text) (json : Json) (value : LedgerValue) {ms : Members} {fs : Fields}
    → parse_value json ≡ some value
    → Reads ms fs
    → Reads (insert_member key json ms) (insert_field key value fs)
unfolding insert_member insert_field
insert_member-Reads key json value new nothing = field key new nothing
insert_member-Reads key json value new (field label read rest) =
    elim (Bool-cases (bytes_eq label key)) [
      | inl same ↦ rw (same, insert_member, insert_field) (field key new rest)
      | inr other ↦ elim (Bool-cases (precedes key label)) [
        | inl front ↦
            rw (other, front, insert_member, insert_field) (field key new (field label read rest))
        | inr behind ↦
            rw (other, behind, insert_member, insert_field)
              (field label read (insert_member-Reads key json value new rest))
      ]
    ]

mutual
  unfolding printed printed_fields printed_items printed_boxed get parse_leaf parse_value record_in
      record_fields parse_members list_in list_items parse_elements optional_in variant_in
      variant_value value_in bytes_eq in_order fields_in_order items_in_order boxed_in_order

  value_lem : (v : LedgerValue) → parse_value (printed v) ≡ some (in_order v)
  value_lem (LedgerValue.text t) = refl
  value_lem (LedgerValue.party t) = refl
  value_lem (LedgerValue.contract_id t) = refl
  value_lem (LedgerValue.numeric t) = refl
  value_lem (LedgerValue.bool b) = refl
  value_lem (LedgerValue.record_of fs) =
      ap (λ r. some (LedgerValue.record_of r)) (parse_members-Reads (fields_lem fs nothing))
  value_lem (LedgerValue.list_of vs) = ap (λ r. some (LedgerValue.list_of r)) (items_lem vs)
  value_lem (LedgerValue.optional b) = ap (λ r. some (LedgerValue.optional r)) (boxed_lem b)
  value_lem (LedgerValue.variant tag b) = ap (λ r. some (LedgerValue.variant tag r)) (boxed_lem b)

  fields_lem :
      (fs : Fields) {ms : Members} {before : Fields}
      → Reads ms before
      → Reads (printed_fields fs ms) (fields_in_order fs before)
  fields_lem Fields.end read = read
  fields_lem (Fields.named label value rest) read =
      fields_lem rest
        (insert_member-Reads label (printed value) (in_order value) (value_lem value) read)

  items_lem : (vs : Values) → parse_elements (printed_items vs) ≡ items_in_order vs
  items_lem Values.nil = refl
  items_lem (Values.cons value rest) =
      rw (value_lem value) (ap (Values.cons (in_order value)) (items_lem rest))

  boxed_lem : (b : Boxed) → boxed (parse_value (printed_boxed b)) ≡ boxed_in_order b
  boxed_lem Boxed.absent = refl
  boxed_lem (Boxed.present value) = ap boxed (value_lem value)

-- Every value of the ledger is read back from the JSON that is printed for it, with the fields of
-- each record in the order of their labels; of fields with one label, the last is read.
pub parse_value-printed : (v : LedgerValue) → parse_value (printed v) ≡ some (in_order v)
parse_value-printed v = value_lem v
