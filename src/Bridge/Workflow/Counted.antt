-- ===== src/Bridge/Workflow/Counted.antt =====
-- bridge/src/workflow.rs: how many requests of one kind a step sends.
use canton_treasury_dvp.Base.{
  ℕ, suc, ◌+◌, ◌≤◌, ◌≡◌, refl, Bool, true, false, Option, none, some, List, [], ◌∷◌, Bytes, Result,
  ok, err, arith, if◌then◌else◌,
}
use canton_treasury_dvp.Bridge.Units.{Text}
use canton_treasury_dvp.Bridge.Journal.{Step, Journal, reached}
use canton_treasury_dvp.Bridge.Recovery.{decode_approval, decode_receipt_status, decode_chain_clock}
use canton_treasury_dvp.Bridge.Workflow.{
  Services, Options, Run, Act, Ask, Sent, Failure, and_then, with_world, ◌>>=◌, ◌>>◌, return, ask,
  request, attempt, attempt_request, ensure, lift, get_journal, set_journal, save, stop_here,
  chain_unix_timestamp, read_receipt_status, read_approval,
}

-- Requests that a test picks.
abbrev pub count : (Sent → Bool) → List Sent → ℕ
count p [] = 0
count p (s ∷ sent) = if p s then suc (count p sent) else count p sent

-- The step sends at most so many of them, whatever it runs on and however it ends.
pub record Sends {ℓ} (p : Sent → Bool) {W : Type 0} {A : Type ℓ} (n : ℕ) (m : Act W A)
    : Type 0 where
  pub bound : (r : Run W) → count p (m r).1.sent ≤ count p r.sent + n

with_world-sent {ℓ} :
    {W : Type 0} {A : Type ℓ} (r : Run W) (x : Result Text A × W) → (with_world r x).1.sent ≡ r.sent
with_world-sent r (ok a, w) = refl
with_world-sent r (err e, w) = refl

module _ {p : Sent → Bool} {W : Type 0} where
  module _ {ℓ κ} {A : Type ℓ} {B : Type κ} where
    and_then-bound :
        (a b k : ℕ) (f : A → Act W B) (x : Result Failure A × Run W)
        → count p x.1.sent ≤ k + a
        → ((y : A) → Sends p b (f y))
        → count p (and_then x f).1.sent ≤ k + (a + b)
    and_then-bound a b k f (ok y, r) h hf = omega (arith, h, (hf y).bound r)
    and_then-bound a b k f (err e, r) h hf = omega (arith, h)

    -- A step that sends none of them goes before, or after.
    pub Sends-after :
        {m : Act W A} {f : A → Act W B} {n : ℕ}
        → Sends p 0 m
        → ((x : A) → Sends p n (f x))
        → Sends p n (m >>= f)
    unfolding ◌>>=◌
    Sends-after {m} {f} {n} hm hf = record {
      bound = λ r. omega (arith, and_then-bound 0 n (count p r.sent) f (m r) (hm.bound r) hf);
    }

    pub Sends-before :
        {m : Act W A} {f : A → Act W B} {n : ℕ}
        → Sends p n m
        → ((x : A) → Sends p 0 (f x))
        → Sends p n (m >>= f)
    unfolding ◌>>=◌
    Sends-before {m} {f} {n} hm hf = record {
      bound = λ r. omega (arith, and_then-bound n 0 (count p r.sent) f (m r) (hm.bound r) hf);
    }

  module _ {ℓ} {A : Type ℓ} where
    pub Sends-then :
        {m : Act W (Unit {0})} {k : Act W A} {n : ℕ}
        → Sends p 0 m
        → Sends p n k
        → Sends p n (m >> k)
    unfolding ◌>>◌
    Sends-then hm hk = Sends-after hm λ _. hk

    pub Sends-then_none :
        {m : Act W (Unit {0})} {k : Act W A} {n : ℕ}
        → Sends p n m
        → Sends p 0 k
        → Sends p n (m >> k)
    unfolding ◌>>◌
    Sends-then_none hm hk = Sends-before hm λ _. hk

    pub Sends-weaken : {m : Act W A} {n : ℕ} → Sends p 0 m → Sends p n m
    Sends-weaken h = record { bound = λ r. omega (arith, h.bound r) }

    pub Sends-return : (a : A) → Sends p 0 (return {W = W} a)
    unfolding return
    Sends-return a = record { bound = λ r. omega arith }

    pub Sends-ask : (m : Ask W A) → Sends p 0 (ask m)
    unfolding ask
    Sends-ask m = record { bound = λ r. rw (with_world-sent r (m r.world)) (omega arith) }

    pub Sends-attempt : (m : Ask W A) → Sends p 0 (attempt m)
    unfolding attempt
    Sends-attempt m = record { bound = λ r. omega arith }

    pub Sends-lift : {E : Type 0} (f : E → Failure) (x : Result E A) → Sends p 0 (lift {W = W} f x)
    unfolding lift
    Sends-lift f (ok a) = record { bound = λ r. omega arith }
    Sends-lift f (err e) = record { bound = λ r. omega arith }

    pub Sends-request : (s : Sent) (m : Ask W A) → Sends p 1 (request s m)
    unfolding request
    Sends-request s m = record {
      bound = λ r. rw (with_world-sent (record r { sent = s ∷ r.sent }) (m r.world)) (ground arith);
    }

    pub Sends-other : (s : Sent) (m : Ask W A) → p s ≡ false → Sends p 0 (request s m)
    unfolding request
    Sends-other s m other = record {
      bound = λ r.
          rw (with_world-sent (record r { sent = s ∷ r.sent }) (m r.world), other) (omega arith);
    }

    pub Sends-try : (s : Sent) (m : Ask W A) → p s ≡ false → Sends p 0 (attempt_request s m)
    unfolding attempt_request
    Sends-try s m other = record { bound = λ r. rw other (omega arith) }

    pub Sends-if :
        {n : ℕ} (b : Bool) {m k : Act W A}
        → Sends p n m
        → Sends p n k
        → Sends p n (if b then m else k)
    Sends-if true hm hk = hm
    Sends-if false hm hk = hk

    pub Sends-elim :
        {n : ℕ} (b : Bool) {m k : Act W A}
        → Sends p n m
        → Sends p n k
        → Sends p n (elim b [ true ↦ m | false ↦ k ])
    Sends-elim true hm hk = hm
    Sends-elim false hm hk = hk

    pub Sends-elim_false :
        {n : ℕ} (b : Bool) (m : Act W A) {k : Act W A}
        → b ≡ false
        → Sends p n k
        → Sends p n (elim b [ true ↦ m | false ↦ k ])
    Sends-elim_false true m h hk = cc
    Sends-elim_false false m h hk = hk

    pub Sends-option {κ} :
        {X : Type κ} {n : ℕ} (o : Option X) {m : Act W A} {f : X → Act W A}
        → Sends p n m
        → ((x : X) → Sends p n (f x))
        → Sends p n (elim o [ none ↦ m | some x ↦ f x ])
    Sends-option none hm hf = hm
    Sends-option (some x) hm hf = hf x

    pub Sends-result {κ} :
        {X : Type κ} {n : ℕ} (o : Result Text X) {m : Text → Act W A} {f : X → Act W A}
        → ((e : Text) → Sends p n (m e))
        → ((x : X) → Sends p n (f x))
        → Sends p n (elim o [ err e ↦ m e | ok x ↦ f x ])
    Sends-result (err e) hm hf = hm e
    Sends-result (ok x) hm hf = hf x

  pub Sends-ensure : (b : Bool) (message : Text) → Sends p 0 (ensure {W = W} b message)
  unfolding ensure
  Sends-ensure b message = record { bound = λ r. omega arith }

  pub Sends-get : Sends p 0 (get_journal {W = W})
  unfolding get_journal
  Sends-get = record { bound = λ r. omega arith }

  pub Sends-set : (j : Journal) → Sends p 0 (set_journal {W = W} j)
  unfolding set_journal
  Sends-set j = record { bound = λ r. omega arith }

  module _ (services : Services W) where
    pub Sends-save : Sends p 0 (save services)
    unfolding save
    Sends-save = record { bound = λ r. (Sends-ask (services.save_journal r.journal)).bound r }

    pub Sends-stop : (options : Options) (step : Step) → Sends p 0 (stop_here services options step)
    unfolding stop_here
    Sends-stop options step = Sends-after Sends-get λ j.
        Sends-then
          (Sends-if (reached j step) (Sends-return tt) (
            Sends-then (Sends-set _)
              (Sends-if options.omit_journal_save (Sends-return tt) Sends-save)))
          (Sends-return _)

    pub Sends-clock : Sends p 0 (chain_unix_timestamp services)
    unfolding chain_unix_timestamp
    Sends-clock =
        Sends-after (Sends-ask services.clock_account)
          λ bytes. Sends-lift _ (decode_chain_clock bytes)

    pub Sends-receipt : (receipt : Bytes) → Sends p 0 (read_receipt_status services receipt)
    unfolding read_receipt_status
    Sends-receipt receipt = Sends-after (Sends-ask (services.get_account receipt)) λ account.
        Sends-option account (Sends-return none) λ bytes.
          Sends-after (Sends-lift _ (decode_receipt_status bytes))
            λ status. Sends-return (some status)

    pub Sends-approval : (key : Bytes) → Sends p 0 (read_approval services key)
    unfolding read_approval
    Sends-approval key = Sends-after (Sends-ask (services.get_account key)) λ account.
        Sends-option account (Sends-return none)
          λ bytes. Sends-after (Sends-lift _ (decode_approval bytes)) λ a. Sends-return (some a)
