-- ===== src/Cl.antt =====
-- nomos-core/cl: notes, the balance of units, partial transactions and bundles of them.
pub mod Notes
pub mod Balance
pub mod Accounts
pub mod Settled
pub mod Bundles
pub mod Partial
pub mod Membership
mod Samples
