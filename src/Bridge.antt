-- ===== src/Bridge.antt =====
-- bridge/src: the decisions of the operator's workflow. Reading a chain, sending a transaction and
-- writing a file are its inputs and outputs.
pub mod Canonical
pub mod Evidence
pub mod Journal
pub mod Ledger
pub mod Recovery
pub mod Reservation
pub mod Setup
pub mod Units
pub mod Workflow
