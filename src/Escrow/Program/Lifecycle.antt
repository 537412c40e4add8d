-- ===== src/Escrow/Program/Lifecycle.antt =====
-- The life of a receipt over a whole run.
use canton_treasury_dvp.Base.{
  ℕ, ◌+◌, ◌≡◌, ◌≤◌, refl, Bool, true, false, ◌&&◌, Option, none, some, List, [], ◌∷◌, Bytes, lookup,
  ok, bytes_eq, bytes_eq_iff, ℤ, inl, inr, ◌⊎◌, arith, Result-cases, ap, subst, Bool-cases,
}
use canton_treasury_dvp.Escrow.Canonical.{
  receipt_locked, receipt_mint_authorized, receipt_cancelled, receipt_released,
}
use canton_treasury_dvp.Escrow.Runtime.{Runtime}
use canton_treasury_dvp.Escrow.State.{Account, LockReceipt, config, receipt, approval}
use canton_treasury_dvp.Escrow.Accounts.{Ledger}
use canton_treasury_dvp.Escrow.Handlers.Loaded.{check_lock-lookup}
use canton_treasury_dvp.Escrow.Handlers.Locked.{lock_confidential-Locked}
use canton_treasury_dvp.Escrow.Program.{
  Event, transaction, elsewhere, initializes, locks, approves, cancels, releases, execute, step,
  run, Call,
}
use canton_treasury_dvp.Escrow.Program.Evolution
use canton_treasury_dvp.Escrow.Program.Evolution.{Evolves, step-Evolves, execute-Evolves}
use canton_treasury_dvp.Escrow.Program.Payouts.{
  held, tally, succeeds, moves_in, moves_out, receipt_of, run_conserves, execute-held, count,
}

-- The later forms of a receipt: all fields but the status stay, and the status goes from locked to
-- authorized and from there to released, or from locked to cancelled.
pub data Follows (r : LockReceipt) : LockReceipt → Type 0 where
  same : Follows r r
  advances :
      (s : ℕ)
      → ((r.status ≡ receipt_locked)
          × ((s ≡ receipt_mint_authorized) ⊎ (s ≡ receipt_cancelled) ⊎ (s ≡ receipt_released)))
        ⊎ ((r.status ≡ receipt_mint_authorized)
            × ((s ≡ receipt_mint_authorized) ⊎ (s ≡ receipt_released)))
      → Follows r (record r { status = s })

-- What an account that holds the receipt `r` may hold later.
pub data Holds (r : LockReceipt) : Option Account → Type 0 where
  holds : (q : LockReceipt) → Follows r q → Holds r (some (receipt q))

Follows-status :
    (r : LockReceipt) (q : LockReceipt) (s : ℕ)
    → Follows r q
    → ((q.status ≡ receipt_locked) × ((s ≡ receipt_mint_authorized) ⊎ (s ≡ receipt_cancelled)))
      ⊎ ((q.status ≡ receipt_mint_authorized)
          × ((s ≡ receipt_mint_authorized) ⊎ (s ≡ receipt_released)))
    → Follows r (record q { status = s })
Follows-status r q s same h = advances s (ground arith)
Follows-status r q s (advances t g) h = advances s (ground arith)

Holds-Evolves : (r : LockReceipt) {x y : Option Account} → Holds r x → Evolves x y → Holds r y
Holds-Evolves r h (Evolution.kept x) = h
Holds-Evolves r h (Evolution.configured c d) = elim h [ ]
Holds-Evolves r h (Evolution.locked q e) = elim h [ ]
Holds-Evolves r (holds q f) (Evolution.authorized q2 e) =
    holds _ (Follows-status r q _ f (ground arith))
Holds-Evolves r (holds q f) (Evolution.cancelled q2 e) =
    holds _ (Follows-status r q _ f (ground arith))
Holds-Evolves r (holds q f) (Evolution.released q2 e) =
    holds _ (Follows-status r q _ f (ground arith))
Holds-Evolves r h (Evolution.opened a e) = elim h [ ]
Holds-Evolves r h (Evolution.signed a b e g) = elim h [ ]
Holds-Evolves r h (Evolution.consumed a e g) = elim h [ ]

Holds-final :
    (r : LockReceipt) {x : Option Account}
    → Holds r x
    → (r.status ≡ receipt_cancelled) ⊎ (r.status ≡ receipt_released)
    → x ≡ some (receipt r)
Holds-final r (holds q same) final = refl
Holds-final r (holds q (advances s g)) final = absurd (ground arith)

-- The lock of a receipt wants its address unused, so one address is locked at most once.
vacant : Option Account → ℕ
vacant none = 1
vacant (some a) = 0

held-none : held none ≡ 0
unfolding held
held-none = refl

vacant-none : vacant none ≡ 1
unfolding vacant
vacant-none = refl

held-vacant : (o : Option Account) → held o + vacant o ≤ 1
unfolding held vacant
held-vacant none = omega arith
held-vacant (some (config c)) = omega arith
held-vacant (some (receipt r)) = ground arith
held-vacant (some (approval a)) = omega arith

moves_one_way :
    (call : Call) (b : Bool) → (moves_in call && b) ≡ true → (moves_out call && b) ≡ false
moves_one_way (initializes ctx args) b h = refl
moves_one_way (locks ctx args) b h = refl
moves_one_way (approves ctx args) b h = refl
moves_one_way (cancels ctx args) b h = cc
moves_one_way (releases ctx args) b h = cc

vacant-Evolves : {x y : Option Account} → Evolves x y → vacant y ≤ vacant x
unfolding vacant
vacant-Evolves (Evolution.kept x) = omega arith
vacant-Evolves (Evolution.configured c d) = omega arith
vacant-Evolves (Evolution.locked q e) = omega arith
vacant-Evolves (Evolution.authorized q e) = omega arith
vacant-Evolves (Evolution.cancelled q e) = omega arith
vacant-Evolves (Evolution.released q e) = omega arith
vacant-Evolves (Evolution.opened a e) = omega arith
vacant-Evolves (Evolution.signed a b e g) = omega arith
vacant-Evolves (Evolution.consumed a e g) = omega arith

module _ {T : Type 0} (rt : Runtime T) (k : Bytes) where
  run-Holds_from :
      (r : LockReceipt) (before : Ledger T) (es : List (Event T))
      → Holds r (lookup k before.accounts)
      → Holds r (lookup k (run rt before es).accounts)
  unfolding run
  run-Holds_from r before [] h = h
  run-Holds_from r before (e ∷ es) h =
      run-Holds_from r (step rt before e) es (Holds-Evolves r h (step-Evolves rt k before e))

  -- A receipt that exists exists after every run at the same address, with the same operation,
  -- destination, commitments, reservation, previous operation, expiry and bump, and its status is
  -- the old one, or a later one: after locked comes authorized, cancelled or released, after
  -- authorized only released.
  pub run-Holds :
      (r : LockReceipt) (before : Ledger T) (es : List (Event T))
      → lookup k before.accounts ≡ some (receipt r)
      → Holds r (lookup k (run rt before es).accounts)
  run-Holds r before es found = run-Holds_from r before es (rw found (holds r same))

  -- A receipt that is cancelled or released never changes again.
  pub run_keeps_final :
      (r : LockReceipt) (before : Ledger T) (es : List (Event T))
      → lookup k before.accounts ≡ some (receipt r)
      → (r.status ≡ receipt_cancelled) ⊎ (r.status ≡ receipt_released)
      → lookup k (run rt before es).accounts ≡ some (receipt r)
  run_keeps_final r before es found final = Holds-final r (run-Holds r before es found) final

  execute_lock_vacant :
      (now : ℤ) (call : Call) (before after : Ledger T)
      → execute rt now call before ≡ ok after
      → (moves_in call && bytes_eq (receipt_of call) k) ≡ true
      → lookup k before.accounts ≡ none
  unfolding execute
  execute_lock_vacant now (initializes ctx args) before after h m = cc
  execute_lock_vacant now (locks ctx args) before after h m =
      let done = lock_confidential-Locked rt ctx args now before after h in
      subst (λ i. lookup i before.accounts ≡ none) ((bytes_eq_iff ctx.receipt.key k).0 m)
        (check_lock-lookup rt before.accounts ctx args.operation done.opened done.loaded).1
  execute_lock_vacant now (approves ctx args) before after h m = cc
  execute_lock_vacant now (cancels ctx args) before after h m = cc
  execute_lock_vacant now (releases ctx args) before after h m = cc

  execute-vacant :
      (now : ℤ) (call : Call) (before after : Ledger T)
      → execute rt now call before ≡ ok after
      → count (moves_in call && bytes_eq (receipt_of call) k) + vacant (lookup k after.accounts)
        ≤ vacant (lookup k before.accounts)
  execute-vacant now call before after h =
      let changed = vacant-Evolves (execute-Evolves rt k now call before after h) in
      elim (Bool-cases (moves_in call && bytes_eq (receipt_of call) k)) [
        | inl m ↦ ground (
          arith,
          changed,
          ap vacant (execute_lock_vacant now call before after h m),
          ap held (execute_lock_vacant now call before after h m),
          held-none,
          vacant-none,
          moves_one_way call (bytes_eq (receipt_of call) k),
          execute-held rt k now call before after h,
          held-vacant (lookup k after.accounts),
        )
        | inr other ↦ rw other (omega (arith, changed))
      ]

  step-vacant :
      (before : Ledger T) (e : Event T)
      → count (succeeds rt k moves_in before e) + vacant (lookup k (step rt before e).accounts)
        ≤ vacant (lookup k before.accounts)
  unfolding step succeeds
  step-vacant before (elsewhere tokens) = omega arith
  step-vacant before (transaction now call) = elim (Result-cases (execute rt now call before)) [
    | inl (after, done) ↦ rw done (execute-vacant now call before after done)
    | inr (e, failed) ↦ rw failed (omega arith)
  ]

  locks_once :
      (before : Ledger T) (es : List (Event T))
      → tally rt k moves_in before es ≤ vacant (lookup k before.accounts)
  unfolding tally
  locks_once before [] = omega arith
  locks_once before (e ∷ es) = omega (arith, locks_once (step rt before e) es, step-vacant before e)

  -- From any state, no sequence of transactions moves the value of one receipt out of the vault
  -- twice.
  pub pays_at_most_once :
      (before : Ledger T) (es : List (Event T)) → tally rt k moves_out before es ≤ 1
  pays_at_most_once before es = omega (
    arith,
    run_conserves rt k before es,
    locks_once before es,
    held-vacant (lookup k before.accounts),
  )
