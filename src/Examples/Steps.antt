-- ===== src/Examples/Steps.antt =====
-- The theorems on the workflow's steps, on services that answer from a clock.
use canton_treasury_dvp.Base.{
  ℕ, suc, ◌+◌, ◌≤◌, ◌≡◌, refl, true, false, none, some, [], ◌∷◌, ◌++◌, Bytes, ok, err, ℤ, pos,
  codes, replicate, bytes_eq, from_le_bytes, if◌then◌else◌, arith, inr,
}
use canton_treasury_dvp.Escrow.State.{count_ones}
use canton_treasury_dvp.Bridge.Canonical.{direction_mint}
use canton_treasury_dvp.Bridge.Recovery.{
  decode_approval, decode_receipt_status, decode_chain_clock, attesters_needed,
  approval_expired_on_chain,
}
use canton_treasury_dvp.Bridge.Reservation.{submit_reserve, reservation_resume}
use canton_treasury_dvp.Bridge.Workflow.{
  Services, Options, Context, Run, ◌>>=◌, ◌>>◌, return, ask, request, attempt, ensure, lift,
  get_journal, set_journal, save, persist, read_receipt_status, read_approval, chain_unix_timestamp,
}
use canton_treasury_dvp.Bridge.Workflow.Approve.{
  approve_needed, try_unknown, submit_needed, check_quorum,
}
use canton_treasury_dvp.Bridge.Workflow.Reserve.{reserve_once, approval_for, submit, record_receipt}
use canton_treasury_dvp.Bridge.Workflow.Release.{Texts}
use canton_treasury_dvp.Bridge.Workflow.Payout.{release_once}
use canton_treasury_dvp.Bridge.Workflow.Cancel.{wait_until_chain_time}
use canton_treasury_dvp.Bridge.Workflow.Cancel.Deadline.{Passes, wait_until_chain_time_returns}
use canton_treasury_dvp.Bridge.Workflow.Counted.{count}
use canton_treasury_dvp.Bridge.Workflow.Spent.{is_movement}
use canton_treasury_dvp.Bridge.Workflow.Once.{release_once-count}
use canton_treasury_dvp.Bridge.Workflow.Settled.{release_once_final}
use canton_treasury_dvp.Bridge.Workflow.Quorum.{HasQuorum, approve_needed-HasQuorum}
use canton_treasury_dvp.Bridge.Workflow.Reserved.{Approves, reserve_once-Approves}
use canton_treasury_dvp.Examples.Workflow.{journal}

abbrev pub clock_bytes : ℕ → Bytes
clock_bytes now = replicate 32 0 ++ ((100 + now) ∷ replicate 7 0)

abbrev signed_account : Bytes
signed_account = replicate 73 0 ++ (3 ∷ 0 ∷ 0 ∷ 200 ∷ replicate 7 0)

abbrev pub released_account : Bytes
released_account = replicate 208 0 ++ (4 ∷ [])

-- Each read of the clock moves it on by one.
abbrev services : Services ℕ
services = record {
  status = λ hex w. (ok 0, w);
  approved = λ hex w. (ok true, w);
  submit = λ s w. (ok (codes "id"), w);
  zama_call =
      λ s w. (ok (record { approved = true; tx_hash = some (codes "tx"); gas_used = none }), w);
  get_account = λ key w.
      (ok (some (if bytes_eq key (codes "receipt") then released_account else signed_account)), w);
  clock_account = λ w. (ok (clock_bytes w), suc w);
  pending_credit_counter = λ account w. (ok 0, w);
  decrypt_available = λ account w. (ok 5, w);
  encrypt = λ account n w. (ok [], w);
  has_pending_encrypted_credit = λ account w. (ok false, w);
  generate_transfer_proofs = λ from to amount w. (err (codes "no prover"), w);
  wait_confirmed = λ id w. (ok (codes "signature"), w);
  confirm_on_chain = λ sig w. (ok tt, w);
  measure_legacy = λ s w. (ok tt, w);
  save_journal = λ j w. (ok tt, w);
  save_secrets = λ w. (ok tt, w);
  instruction_data = λ m. m.transfer_data;
  approval_pda = λ operation direction. codes "approval";
  sha256 = λ bytes. bytes;
}

abbrev pub options : Options
options = record {
  stop_after = none;
  omit_journal_save = false;
  halt_after_first_approval = false;
  inject_attester_disagreement = false;
  inject_unknown_attester = false;
}

abbrev texts : Texts
texts = record {
  to_hex = λ bytes. bytes;
  from_hex = λ t. ok t;
  to_base58 = λ bytes. bytes;
  from_base58 = λ t. ok t;
  later = λ now secs. now;
}

abbrev context : Context
context = record {
  source = codes "source";
  vault = codes "vault";
  destination = codes "destination";
  destination_text = journal.payout_destination;
  amount = 5;
  commitment = [];
  operation = replicate 32 0;
  reservation = replicate 32 0;
  previous = replicate 32 0;
  chain_id = replicate 32 0;
  program_id = replicate 32 0;
  config = replicate 32 0;
  receipt = codes "receipt";
  reservation_hex = codes "0x00";
  include_canton_zama = false;
  release_deadline_secs = pos 3600;
}

abbrev run : Run ℕ
run = record { world = 0; journal = journal; sent = [] }

release_once-count_example :
    count is_movement (release_once services options texts context run).1.sent
    ≤ count is_movement run.sent + 1
release_once-count_example = release_once-count services options texts context run

receipt_released : read_receipt_status services context.receipt run ≡ (ok (some 4), run)
unfolding read_receipt_status ◌>>=◌ ask lift return decode_receipt_status bytes_eq
receipt_released = refl

release_once_final_example :
    count is_movement (release_once services options texts context run).1.sent
    ≤ count is_movement run.sent
release_once_final_example =
    release_once_final services options texts context run run 4 receipt_released (inr refl)

abbrev ticked : Run ℕ
ticked = record { world = 1; journal = journal; sent = [] }

both_signed :
    approve_needed services options direction_mint (replicate 32 0) (pos 200) (replicate 32 0) run
    ≡ (ok [], ticked)
unfolding approve_needed read_approval chain_unix_timestamp try_unknown submit_needed check_quorum
    ◌>>=◌ ◌>>◌ ask lift return ensure decode_approval decode_chain_clock attesters_needed
    approval_expired_on_chain bytes_eq from_le_bytes count_ones
both_signed = refl

approve_needed-HasQuorum_example : HasQuorum services options (codes "approval") ticked
approve_needed-HasQuorum_example =
    approve_needed-HasQuorum services options refl refl direction_mint (replicate 32 0) (pos 200)
      (replicate 32 0) run ticked [] both_signed

newly_reserved :
    (reserve_once services (codes "0x00") 5 run)
    ≡ (ok submit_reserve, (reserve_once services (codes "0x00") 5 run).1)
unfolding reserve_once approval_for submit record_receipt persist save ◌>>=◌ ◌>>◌ ask attempt
    request lift return ensure get_journal set_journal reservation_resume
newly_reserved = refl

reserve_once-Approves_example :
    Approves services
      (codes "0x00")
      5
      run
      (reserve_once services (codes "0x00") 5 run).1
      submit_reserve
reserve_once-Approves_example =
    reserve_once-Approves services (codes "0x00") 5 run
      (reserve_once services (codes "0x00") 5 run).1 submit_reserve newly_reserved

two_reads : Passes services (pos 101) 1 run
unfolding chain_unix_timestamp ◌>>=◌ ask lift decode_chain_clock from_le_bytes
    approval_expired_on_chain
two_reads =
    Passes.tick {after = ticked} (pos 100) refl refl
      (Passes.over {after = record { world = 2; journal = journal; sent = [] }} (pos 101) refl refl)

wait_until_chain_time_returns_example :
    (now : ℤ) × (after : Run ℕ) × (wait_until_chain_time services 3 (pos 101) run ≡ (ok now, after))
    × (approval_expired_on_chain (pos 101) now ≡ true)
wait_until_chain_time_returns_example =
    wait_until_chain_time_returns services (pos 101) 3 two_reads (omega arith)
