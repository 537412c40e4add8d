-- ===== src/Bridge/Ledger/Json/Log.antt =====
-- bridge/src/canton_history.rs: the facts that canton/scripts/verify-bridge-completion.canton prints,
-- and the reading of a log that has them among other lines.
use canton_treasury_dvp.Base.{
  ◌≡◌, refl, false, Option, none, some, List, [], ◌∷◌, ◌++◌, Result, ok, codes, bytes_eq,
}
use canton_treasury_dvp.Bridge.Units.{Text, is_empty}
use canton_treasury_dvp.Bridge.Ledger.{LedgerValue}
use canton_treasury_dvp.Bridge.Ledger.Facts.{
  CreatedFact, ExercisedFact, ArchivedFact, CantonHistory,
}
use canton_treasury_dvp.Bridge.Ledger.Json.{Json, Members, get, get_member, parse_value}
use canton_treasury_dvp.Bridge.Ledger.Json.Read.{
  json_string, parsed, created_fact, exercised_fact, archived_fact, push_fact, fact_text,
  parse_lines,
}
use canton_treasury_dvp.Bridge.Ledger.Json.Printed.{printed, in_order, parse_value-printed}

pub data Fact : Type 0 where
  created : CreatedFact → Fact
  exercised : ExercisedFact → Fact
  archived : ArchivedFact → Fact

abbrev pub or_null : Option LedgerValue → Json
or_null none = Json.null
or_null (some value) = printed value

abbrev pub text_member : Text → Text → Members → Members
text_member name value rest = Members.member name (Json.string value) rest

-- The JSON of a fact, with its members in the order of their names.
abbrev pub printed_fact : Fact → Json
printed_fact (created f) = Json.object (
    Members.member (codes "arguments") (or_null f.arguments) (
      text_member (codes "cid") f.cid (
        text_member (codes "kind") (codes "created") (
          text_member (codes "template") f.template
            (text_member (codes "updateId") f.update_id Members.close)))))
printed_fact (exercised f) = Json.object (
    Members.member (codes "argument") (or_null f.argument) (
      text_member (codes "choice") f.choice (
        text_member (codes "cid") f.cid (
          Members.member (codes "consuming") (Json.flag f.consuming) (
            text_member (codes "kind") (codes "exercised") (
              Members.member (codes "result") (or_null f.result) (
                text_member (codes "template") f.template
                  (text_member (codes "updateId") f.update_id Members.close))))))))
printed_fact (archived f) = Json.object (
    text_member (codes "cid") f.cid (
      text_member (codes "kind") (codes "archived") (
        text_member (codes "template") f.template
          (text_member (codes "updateId") f.update_id Members.close))))

abbrev pub option_in_order : Option LedgerValue → Option LedgerValue
option_in_order none = none
option_in_order (some value) = some (in_order value)

-- A fact as it is read: its values have their fields in order.
abbrev pub fact_in_order : Fact → Fact
fact_in_order (created f) = created (record f { arguments = option_in_order f.arguments })
fact_in_order (exercised f) =
    exercised
      (record f { argument = option_in_order f.argument; result = option_in_order f.result })
fact_in_order (archived f) = archived f

-- The names of a fact are not empty.
abbrev pub IsNamed : Fact → Type 0
IsNamed (created f) =
    (is_empty f.template ≡ false) × (is_empty f.cid ≡ false) × (is_empty f.update_id ≡ false)
IsNamed (exercised f) =
    (is_empty f.template ≡ false)
    × (is_empty f.choice ≡ false)
    × (is_empty f.cid ≡ false)
    × (is_empty f.update_id ≡ false)
IsNamed (archived f) =
    (is_empty f.template ≡ false) × (is_empty f.cid ≡ false) × (is_empty f.update_id ≡ false)

-- The history with one more fact, behind those of its kind.
abbrev pub with_fact : Fact → CantonHistory → CantonHistory
with_fact (created f) h = record {
  created = h.created ++ (f ∷ []);
  exercised = h.exercised;
  archived = h.archived;
}
with_fact (exercised f) h = record {
  created = h.created;
  exercised = h.exercised ++ (f ∷ []);
  archived = h.archived;
}
with_fact (archived f) h = record {
  created = h.created;
  exercised = h.exercised;
  archived = h.archived ++ (f ∷ []);
}

parsed-or_null : (v : Option LedgerValue) → parsed (some (or_null v)) ≡ option_in_order v
unfolding parse_value
parsed-or_null none = refl
parsed-or_null (some value) = parse_value-printed value

push_fact-printed_fact :
    (f : Fact) (h : CantonHistory)
    → IsNamed f
    → push_fact (printed_fact f) h ≡ ok (with_fact (fact_in_order f) h)
unfolding push_fact created_fact exercised_fact archived_fact json_string get_member get bytes_eq
push_fact-printed_fact (created f) h n = rw (n.0, n.1, n.2, parsed-or_null f.arguments) refl
push_fact-printed_fact (exercised f) h n =
    rw (n.0, n.1, n.2, n.3, parsed-or_null f.argument, parsed-or_null f.result) refl
push_fact-printed_fact (archived f) h n = rw (n.0, n.1, n.2) refl

-- A log: its lines, and the facts that some of them are, in order.
pub data Log (from_str : Text → Result Text Json) : List Text → List Fact → Type 0 where
  end : Log from_str [] []
  noise :
      {line : Text} {rest : List Text} {fs : List Fact}
      → fact_text line ≡ none
      → Log from_str rest fs
      → Log from_str (line ∷ rest) fs
  fact :
      {line json : Text} {f : Fact} {rest : List Text} {fs : List Fact}
      → fact_text line ≡ some json
      → from_str json ≡ ok (printed_fact f)
      → IsNamed f
      → Log from_str rest fs
      → Log from_str (line ∷ rest) (f ∷ fs)

abbrev pub in_order_facts : List Fact → List Fact
in_order_facts [] = []
in_order_facts (f ∷ fs) = fact_in_order f ∷ in_order_facts fs

abbrev pub with_facts : List Fact → CantonHistory → CantonHistory
with_facts [] h = h
with_facts (f ∷ fs) h = with_facts fs (with_fact f h)

-- The history read from a log has exactly the facts that were printed in it, each in the order of its
-- kind and with the fields of its records in the order of their labels, whatever other lines the log
-- has, if the parser of JSON reads each printed fact as an object with its members in the order of
-- their names.
pub parse_lines-Log :
    (from_str : Text → Result Text Json) {ls : List Text} {fs : List Fact} (h : CantonHistory)
    → Log from_str ls fs
    → parse_lines from_str ls h ≡ ok (with_facts (in_order_facts fs) h)
unfolding parse_lines
parse_lines-Log from_str h end = refl
parse_lines-Log from_str h (noise skipped rest) =
    rw (skipped, parse_lines) (parse_lines-Log from_str h rest)
parse_lines-Log from_str h (fact {line} {json} {f} read shown named rest) =
    rw (read, shown, push_fact-printed_fact f h named, parse_lines)
      (parse_lines-Log from_str (with_fact (fact_in_order f) h) rest)
