-- ===== src/Sdp.antt =====
-- nomos-sdp: service declarations of providers, their rewards and withdrawals.
pub mod Types
pub mod Action
pub mod State
pub mod Transitions
pub mod Interfaces
pub mod Pending
pub mod Ledger
pub mod Block
pub mod Runs
pub mod Atomic
pub mod Marking
pub mod Samples
