-- ===== src/Escrow.antt =====
-- solana/programs/confidential-escrow/src: the on-chain escrow program.
pub mod Canonical
pub mod Runtime
pub mod State
pub mod Ed25519
pub mod Confidential
pub mod Accounts
pub mod Requests
pub mod Handlers
pub mod Program
