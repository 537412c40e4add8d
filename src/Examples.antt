-- ===== src/Examples.antt =====
-- Concrete inputs: the theorems applied to them.
pub mod Setting
pub mod Programs
pub mod Digests
pub mod Ledger
pub mod History
pub mod Workflow
pub mod Steps
pub mod Finish
pub mod Compatible
pub mod Sent
pub mod Halting
