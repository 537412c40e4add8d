-- ===== src/Bridge/Ledger/Json/Read.antt =====
-- bridge/src/canton_history.rs: the facts in the output of the Canton scripts.
use canton_treasury_dvp.Base.{
  true, false, Option, none, some, List, [], ◌∷◌, ◌++◌, Result, ok, err, ◌>>=◌, ok_or, map_err,
  bytes_eq, codes, if◌then◌else◌, ◌==◌, length, drop,
}
use canton_treasury_dvp.Bridge.Units.{Text, trim}
use canton_treasury_dvp.Bridge.Ledger.{LedgerValue, non_empty}
use canton_treasury_dvp.Bridge.Ledger.Facts.{
  CreatedFact, ExercisedFact, ArchivedFact, CantonHistory,
}
use canton_treasury_dvp.Bridge.Ledger.Steps.{starts_with}
use canton_treasury_dvp.Bridge.Ledger.Json.{
  Json, get_member, as_str, as_bool, or_false, parse_value,
}

abbrev pub cannot_be_read : Text → Text
cannot_be_read reason = codes "Canton ledger evidence cannot be read: " ++ reason

unfoldable pub json_string : Json → Text → Result Text Text
unfolding get_member
json_string value name =
    ok_or (non_empty (as_str (get_member value name))) (cannot_be_read (codes "missing " ++ name))

-- `value.get(name).and_then(parse_value)`
abbrev pub parsed : Option Json → Option LedgerValue
parsed none = none
parsed (some json) = parse_value json

unfoldable pub created_fact : Json → Result Text CreatedFact
unfolding get_member
created_fact value = do
  template ← json_string value (codes "template")
  cid ← json_string value (codes "cid")
  update_id ← json_string value (codes "updateId")
  ok (record {
    template = template;
    cid = cid;
    update_id = update_id;
    arguments = parsed (get_member value (codes "arguments"));
  })

unfoldable pub exercised_fact : Json → Result Text ExercisedFact
unfolding get_member
exercised_fact value = do
  template ← json_string value (codes "template")
  choice ← json_string value (codes "choice")
  cid ← json_string value (codes "cid")
  update_id ← json_string value (codes "updateId")
  ok (record {
    template = template;
    choice = choice;
    cid = cid;
    consuming = or_false (as_bool (get_member value (codes "consuming")));
    update_id = update_id;
    argument = parsed (get_member value (codes "argument"));
    result = parsed (get_member value (codes "result"));
  })

unfoldable pub archived_fact : Json → Result Text ArchivedFact
archived_fact value = do
  template ← json_string value (codes "template")
  cid ← json_string value (codes "cid")
  update_id ← json_string value (codes "updateId")
  ok (record { template = template; cid = cid; update_id = update_id })

-- `push` of a fact of its kind.
unfoldable pub push_fact : Json → CantonHistory → Result Text CantonHistory
unfolding get_member created_fact exercised_fact archived_fact
push_fact value h = do
  kind ←
      ok_or (as_str (get_member value (codes "kind"))) (cannot_be_read (codes "missing fact kind"))
  elim (bytes_eq kind (codes "created")) [
    | true ↦ created_fact value >>= λ fact. ok (record {
      created = h.created ++ (fact ∷ []);
      exercised = h.exercised;
      archived = h.archived;
    })
    | false ↦ elim (bytes_eq kind (codes "exercised")) [
      | true ↦ exercised_fact value >>= λ fact. ok (record {
        created = h.created;
        exercised = h.exercised ++ (fact ∷ []);
        archived = h.archived;
      })
      | false ↦ elim (bytes_eq kind (codes "archived")) [
        | true ↦ archived_fact value >>= λ fact. ok (record {
          created = h.created;
          exercised = h.exercised;
          archived = h.archived ++ (fact ∷ []);
        })
        | false ↦ err (cannot_be_read (codes "unknown fact kind"))
      ]
    ]
  ]

-- `str::lines`. A carriage return at the end of a line goes with the trim that follows.
unfoldable pub lines : Text → List Text
lines [] = []
lines (c ∷ s) = elim (c == b'\n') [
  | true ↦ [] ∷ lines s
  | false ↦ elim (lines s) [ [] ↦ (c ∷ []) ∷ [] | line ∷ rest ↦ (c ∷ line) ∷ rest ]
]

unfoldable pub strip_prefix : Text → Text → Option Text
unfolding starts_with
strip_prefix prefix t = if starts_with t prefix then some (drop (length prefix) t) else none

-- The trimmed text behind the prefix of a trimmed line, unless it is empty.
unfoldable pub fact_text : Text → Option Text
unfolding strip_prefix
fact_text line = elim (strip_prefix (codes "CANTON_FACT ") (trim line)) [
  | some json ↦ non_empty (some (trim json))
  | none ↦ elim (strip_prefix (codes "CANTON_FACT") (trim line)) [
    | some json ↦ non_empty (some (trim json))
    | none ↦ none
  ]
]

abbrev pub no_facts : CantonHistory
no_facts = record { created = []; exercised = []; archived = [] }

-- `serde_json::from_str`
module _ (from_str : Text → Result Text Json) where
  unfoldable pub parse_lines : List Text → CantonHistory → Result Text CantonHistory
  unfolding fact_text push_fact
  parse_lines [] h = ok h
  parse_lines (line ∷ rest) h = elim (fact_text line) [
    | none ↦ parse_lines rest h
    | some json ↦ map_err cannot_be_read (from_str json) >>= λ value.
        push_fact value h >>= λ more. parse_lines rest more
  ]

  unfoldable pub parse_canton_history_facts : Text → Result Text CantonHistory
  unfolding lines parse_lines
  parse_canton_history_facts stdout = parse_lines (lines stdout) no_facts
