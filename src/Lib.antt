-- ===== src/Lib.antt =====
-- A verification library for the Canton treasury DvP bridge: the Solana escrow program, and the
-- decisions of the operator's workflow that drives it.
--
-- The bridge locks confidential tokens in a vault on Solana, mints their equivalent on Canton,
-- settles a trade there, and pays the tokens out after the redemption. Each operation has a receipt
-- on Solana; two of three attesters must sign each mint, cancellation and release. The workflow
-- reads the chains, decides what is left to do, and sends the transactions.
--
-- The escrow program (solana/programs/confidential-escrow/src):
--   canonical.rs      Escrow/Canonical.antt: domains, directions, receipt statuses, `hashv`,
--                     `amount_commitment`, `proof_commitment`, `operation_digest`.
--   state.rs          Escrow/State.antt: the accounts, `attester_index`, `distinct_signers`.
--   errors.rs         Escrow/Runtime.antt: the errors, and all that the program calls.
--   ed25519.rs        Escrow/Ed25519.antt: the signature before an approval.
--   confidential.rs   Escrow/Confidential.antt: token accounts, transfer data and the calls of
--                     Token-2022.
--   handlers.rs       Escrow/Accounts.antt: the account structs and their constraints;
--                     Escrow/Requests.antt: the guards and the changes of approvals and receipts;
--                     Escrow/Handlers.antt: the five instructions.
--   lib.rs            Escrow/Program.antt: the entry points, and runs of transactions.
-- A handler takes the ledger and returns the one that is committed, or an error. The ledger is the
-- program's accounts by address and the state of the token program. A failed transaction changes
-- nothing, and the token program's state may change freely between transactions.
--
-- The workflow (bridge/src):
--   units.rs          Bridge/Units.antt: base units and decimal texts, as lists of code points.
--   canonical.rs      Bridge/Canonical.antt: the digests.
--   reservation.rs    Bridge/Reservation.antt: resuming from a reservation.
--   recovery.rs       Bridge/Recovery.antt: completion, missing attestations, decoding of accounts.
--   journal.rs, workflow.rs   Bridge/Journal.antt: the steps, the journal,
--                     `max_completed`, `apply_zama_receipt`, `record_mint_approvals`.
--   workflow.rs       Bridge/Workflow.antt: the services and how a step uses them; its children
--                     Reserve, Lock, Approve, Release, Payout, Cancel and Complete: `reserve_once`,
--                     `lock_once`, `approve_needed`, `release_once`, `cancel_locked_operation`,
--                     `record_completed_operation`; `halt` is `stop_here`.
--   setup.rs          Bridge/Setup.antt: the configuration account and the check that it agrees with the
--                     local accounts.
--   canton.rs         Bridge/Evidence.antt: the evidence that a completion requires;
--                     Bridge/Ledger/Completion.antt: the evidence from the Canton scripts' output.
--   canton_history.rs Bridge/Ledger.antt: the ledger's values and their fields;
--                     Bridge/Ledger/Json.antt and Json/Read.antt: values and facts from JSON;
--                     Bridge/Ledger/Facts.antt: facts and the searches for one;
--                     Bridge/Ledger/Binding.antt, Operation.antt and its children: the stages of
--                     `connect_canton_history`; Bridge/Ledger/Connect.antt: their composition.
-- The workflow's model shares the digests' fields and the approval's layout with the program's, and
-- Bridge/Recovery/Agreement.antt compares its decisions with what the program accepts.
--
-- Parameters: `Runtime` holds SHA-256, program addresses, the owner and the contents of a token
-- account, and a call of the token program, which may fail. Nothing is assumed of them, but that
-- SHA-256 has no collisions where Escrow/Canonical/Binding.antt says so. Reads of the chains by the
-- workflow are arguments, and a read may fail; so is the parser of a JSON text. Amounts are numbers below 2^64, times are signed
-- 64-bit numbers, and a number's text has at most 20 digits, which is the fuel of `show_digits`.
--
-- An object of JSON is a map with its keys in order, as `serde_json` holds it; what the Canton script
-- prints is put in that order where a theorem speaks of it.
--
-- A step of the workflow runs on services that answer requests from a world of any kind, and records
-- what it sends. The wait for a deadline, which the source repeats without a bound, runs on fuel.
--
-- Not modelled: rent and the system program, the ownership of accounts by other programs than the
-- token program, compute limits, files, HTTP and RPC, keys and proofs; program.rs, of which the data
-- of an instruction is a parameter; the setup of accounts and `run_full`, which calls the steps; what
-- is printed; the Daml, Solidity and shell sources.
--
-- Base holds the tests on numbers, lists, results, signed numbers, bytes and maps that the parts
-- share. Examples applies the theorems to concrete inputs.
pub mod Base
pub mod Escrow
pub mod Bridge
pub mod Examples
