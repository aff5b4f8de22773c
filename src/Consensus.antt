-- ===== src/Consensus.antt =====
-- nomos-services/cryptarchia-consensus/src/lib.rs: the service's own `Cryptarchia`, an engine and a ledger
-- side by side (Chain), and that they stay in step (InStep).
pub mod Chain
pub mod InStep
mod Samples
