-- ===== src/Bridge/Ledger/Completion/Verified.antt =====
-- bridge/src/canton.rs: what evidence that is required, and accepted, says of the scripts' output.
use canton_treasury_dvp.Base.{
  not-true, ◌≡◌, ap, sym, ◌∙◌, false, ◌||◌, not, ◌∷◌, ◌++◌, Result, ok, map_err, codes, on_ok,
  on_require, ok-injective, Result-cases, Bool-cases, inl, inr, ◌⊎◌,
}
use canton_treasury_dvp.Bridge.Units.{Text}
use canton_treasury_dvp.Bridge.Evidence.{
  CantonLedgerExpectation, CantonLedgerEvidence, require_canton_ledger_evidence,
}
use canton_treasury_dvp.Bridge.Evidence.Required.{Belongs, require_canton_ledger_evidence-Belongs}
use canton_treasury_dvp.Bridge.Ledger.Facts.{CantonHistory, is_empty_history}
use canton_treasury_dvp.Bridge.Ledger.Steps.{contains}
use canton_treasury_dvp.Bridge.Ledger.Json.{Json}
use canton_treasury_dvp.Bridge.Ledger.Json.Read.{parse_canton_history_facts, cannot_be_read}
use canton_treasury_dvp.Bridge.Ledger.Connect.{connect_canton_history}
use canton_treasury_dvp.Bridge.Ledger.Connect.Connected.{
  Connected, connect_canton_history-Connected,
}
use canton_treasury_dvp.Bridge.Ledger.Completion.{
  no_evidence, other_lock, unreadable_mark, failed, history_output, not_connected, from_facts,
  completion_from_acs_and_history,
}

not_connected-default :
    (text : Text) (e : CantonLedgerEvidence) → not_connected text ≡ ok e → e ≡ no_evidence
unfolding not_connected
not_connected-default text e h =
    elim (Bool-cases
      (contains text (codes "another operation") || contains text (codes "not connected"))) [
        | inl other ↦ cc (rw other at h)
        | inr same ↦ elim (Bool-cases (contains text (codes "cannot be read"))) [
          | inl unread ↦ cc (rw (same, unread) at h)
          | inr read ↦ sym (ok-injective (rw (same, read) at h))
        ]
      ]

from_facts-connected :
    (combined : Text) (facts : CantonHistory) (x : CantonLedgerExpectation)
    (e : CantonLedgerEvidence)
    → from_facts combined facts x ≡ ok e
    → (e ≡ no_evidence) ⊎ (connect_canton_history facts x ≡ ok e)
unfolding from_facts
from_facts-connected combined facts x e h = elim (Bool-cases (is_empty_history facts)) [
  | inl empty ↦ elim (Bool-cases (failed combined)) [
    | inl fails ↦ inl (sym (ok-injective (rw (empty, fails, from_facts) at h)))
    | inr silent ↦ cc (rw (empty, silent, from_facts) at h)
  ]
  | inr full ↦ elim (Result-cases (connect_canton_history facts x)) [
    | inl (v, ran) ↦ inr (ran ∙ (rw (full, ran, from_facts) at h))
    | inr (t, ran) ↦ inl (not_connected-default t e (rw (full, ran, from_facts) at h))
  ]
]

-- The output of the two scripts that evidence was read from.
pub record Verified (from_str : Text → Result Text Json) (acs : Text) (history : Result Text Text)
    (x : CantonLedgerExpectation) (e : CantonLedgerEvidence) : Type 0 where
  pub output : Text
  pub printed : history_output history ≡ ok output
  pub readable : contains (acs ++ (b'\n' ∷ output)) unreadable_mark ≡ false
  pub own : other_lock (acs ++ (b'\n' ∷ output)) ≡ false
  pub facts : CantonHistory
  pub parsed :
      map_err cannot_be_read (parse_canton_history_facts from_str (acs ++ (b'\n' ∷ output)))
      ≡ ok facts
  pub connected : Connected facts x e
  pub belongs : Belongs e x

no_default :
    (e : CantonLedgerEvidence) (x : CantonLedgerExpectation) → Belongs e x → e ≡ no_evidence → ⊥
no_default e x b same = cc (sym (ap (λ v. CantonLedgerEvidence.mint_consumed v) same) ∙ b.minted)

Connected-only :
    (facts : CantonHistory) (x : CantonLedgerExpectation) (e : CantonLedgerEvidence)
    → Belongs e x
    → (e ≡ no_evidence) ⊎ (connect_canton_history facts x ≡ ok e)
    → Connected facts x e
Connected-only facts x e b (inl default) = absurd (no_default e x b default)
Connected-only facts x e b (inr ran) = connect_canton_history-Connected facts x e ran

-- A completion is accepted only on the facts of the scripts' output: it could be read, marks neither
-- an unreadable ledger nor another operation, and its facts are of one connected operation, the
-- expected one. Evidence that stands for a failed script or for facts that do not connect is refused.
pub completion_from_acs_and_history-Verified :
    (from_str : Text → Result Text Json) (acs : Text) (history : Result Text Text)
    (x : CantonLedgerExpectation) (e : CantonLedgerEvidence)
    → require_canton_ledger_evidence (completion_from_acs_and_history from_str acs history x) x
      ≡ ok e
    → Verified from_str acs history x e
unfolding completion_from_acs_and_history
completion_from_acs_and_history-Verified from_str acs history x e accepted =
    let b =
      require_canton_ledger_evidence-Belongs
        (completion_from_acs_and_history from_str acs history x) x e accepted in
    on_ok (history_output history) _ b.0 λ output e1 h1.
      on_require (not (contains (acs ++ (b'\n' ∷ output)) unreadable_mark)) _ _ h1 λ readable h2.
        on_require (not (other_lock (acs ++ (b'\n' ∷ output)))) _ _ h2 λ own h3.
          on_ok
            (map_err cannot_be_read (parse_canton_history_facts from_str (acs ++ (b'\n' ∷ output))))
            _ h3
            λ facts e2 h4. record {
              output = output;
              printed = e1;
              readable = not-true (contains (acs ++ (b'\n' ∷ output)) unreadable_mark) readable;
              own = not-true (other_lock (acs ++ (b'\n' ∷ output))) own;
              facts = facts;
              parsed = e2;
              connected =
                  Connected-only facts x e b.1
                    (from_facts-connected (acs ++ (b'\n' ∷ output)) facts x e h4);
              belongs = b.1;
            }
