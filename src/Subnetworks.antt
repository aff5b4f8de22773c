-- ===== src/Subnetworks.antt =====
-- nomos-da/network/subnetworks-assignations/src: how the two versions assign peers to subnetworks
-- (Assign), the questions that both answer (Handler), and what the assignment comes to (Cycle, Sorted, Cover).
pub mod Assign
pub mod Handler
pub mod Cycle
pub mod Sorted
pub mod Cover
mod Samples
