-- ===== src/Escrow/Program/Attestations/Preserved.antt =====
-- Lemmas on the log and on ledgers that grow.
use canton_treasury_dvp.Base.{
  ◌≡◌, ◌≢◌, sym, Option, none, some, ◌∷◌, Bytes, lookup, insert, lookup-insert, ok, bytes_eq,
  bytes_eq_iff, inl, inr, arith, subst, Bool-cases, Dict,
}
use canton_treasury_dvp.Escrow.Runtime.{Runtime}
use canton_treasury_dvp.Escrow.State.{
  Account, LockReceipt, OperationApproval, BridgeConfig, config, receipt, approval,
}
use canton_treasury_dvp.Escrow.Accounts.{load_or_init}
use canton_treasury_dvp.Escrow.Program.Attestations.{
  Attestation, Log, Logged, older, config_key, Backed, Inv,
}

abbrev pub NotConfig : Option Account → Type 0
NotConfig o = (c : BridgeConfig) → o ≢ some (config c)

pub NotConfig-none : (o : Option Account) → o ≡ none → NotConfig o
NotConfig-none o h c e = cc

pub NotConfig-receipt : (o : Option Account) (r : LockReceipt) → o ≡ some (receipt r) → NotConfig o
NotConfig-receipt o r h c e = cc

pub NotConfig-loaded :
    (o : Option Account) {a : OperationApproval} → load_or_init o ≡ ok a → NotConfig o
NotConfig-loaded o h c e = ground arith

module _ {T : Type 0} (rt : Runtime T) where
  -- The configuration in force stays in force.
  abbrev pub Extends : Dict Account → Dict Account → Type 0
  Extends d d' =
      (c : BridgeConfig)
      → lookup (config_key rt) d ≡ some (config c)
      → lookup (config_key rt) d' ≡ some (config c)

  pub Extends-insert :
      (j : Bytes) (v : Account) (d : Dict Account)
      → NotConfig (lookup j d)
      → Extends d (insert j v d)
  Extends-insert j v d other c h =
      rw lookup-insert (elim (Bool-cases (bytes_eq j (config_key rt))) [
        | inl here ↦ absurd (
            other c (subst (λ i. lookup i d ≡ some (config c)) (sym ((bytes_eq_iff j _).0 here)) h))
        | inr away ↦ rw away h
      ])

  pub Backed-later :
      (d d' : Dict Account) (l l' : Log) (k : Bytes) (a : OperationApproval)
      → Extends d d'
      → ((x : Attestation) → Logged x l → Logged x l')
      → Backed rt d l k a
      → Backed rt d' l' k a
  Backed-later d d' l l' k a kept grown b = record {
    small = b.small;
    bits = λ j lt bit.
        let v = b.bits j lt bit in
        record {
          config = v.config;
          attester = v.attester;
          in_force = kept v.config v.in_force;
          known = v.known;
          logged = grown _ v.logged;
        };
  }

  pub Inv-log : (d : Dict Account) (x : Attestation) (l : Log) → Inv rt d l → Inv rt d (x ∷ l)
  Inv-log d x l v = record {
    configs = v.configs;
    approvals = λ k a found.
        Backed-later d d l (x ∷ l) k a (λ c h. h) (λ y logged. older x logged)
          (v.approvals k a found);
  }

  pub Inv-config :
      (j : Bytes) (c : BridgeConfig) (d : Dict Account) (l : Log)
      → j ≡ config_key rt
      → NotConfig (lookup j d)
      → Inv rt d l
      → Inv rt (insert j (config c) d) l
  Inv-config j c d l here other v = record {
    configs = λ k e found.
        ground (arith, found, lookup-insert j k (config c) d, v.configs k e, bytes_eq_iff j k);
    approvals = λ k a found.
        Backed-later d _ l l k a (Extends-insert j (config c) d other) (λ y logged. logged)
          (v.approvals k a (ground (arith, found, lookup-insert j k (config c) d)));
  }

  pub Inv-receipt :
      (j : Bytes) (r : LockReceipt) (d : Dict Account) (l : Log)
      → NotConfig (lookup j d)
      → Inv rt d l
      → Inv rt (insert j (receipt r) d) l
  Inv-receipt j r d l other v = record {
    configs = λ k e found. v.configs k e (ground (arith, found, lookup-insert j k (receipt r) d));
    approvals = λ k a found.
        Backed-later d _ l l k a (Extends-insert j (receipt r) d other) (λ y logged. logged)
          (v.approvals k a (ground (arith, found, lookup-insert j k (receipt r) d)));
  }

  pub Inv-approval :
      (j : Bytes) (b : OperationApproval) (d : Dict Account) (l : Log)
      → NotConfig (lookup j d)
      → Backed rt d l j b
      → Inv rt d l
      → Inv rt (insert j (approval b) d) l
  Inv-approval j b d l other backed v = record {
    configs = λ k e found. v.configs k e (ground (arith, found, lookup-insert j k (approval b) d));
    approvals = λ k a found.
        Backed-later d _ l l k a (Extends-insert j (approval b) d other) (λ y logged. logged)
          (elim (Bool-cases (bytes_eq j k)) [
            | inl here ↦
                subst (λ i. Backed rt d l i a) ((bytes_eq_iff j k).0 here)
                  (subst (Backed rt d l j)
                    (ground (arith, found, lookup-insert j k (approval b) d, here)) backed)
            | inr away ↦
                v.approvals k a (ground (arith, found, lookup-insert j k (approval b) d, away))
          ]);
  }
