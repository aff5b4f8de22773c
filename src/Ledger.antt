-- ===== src/Ledger.antt =====
-- ledger/nomos-ledger: note commitments, nullifiers and the epoch snapshots that leader proofs are
-- checked against.
pub mod Config
pub mod NoteTree
pub mod State
pub mod Store
pub mod Snapshots
pub mod Epochs
pub mod Spending
pub mod Accepted
pub mod Rolling
pub mod Trees
pub mod Notes
pub mod Blocks
pub mod Samples
