-- ===== src/Mempool.antt =====
-- nomos-services/mempool/src: the mock pool (Pool), the messages and handlers of the two services
-- (Service), and the pool as a status for each key (Statuses, Keys, Refine).
pub mod Pool
pub mod Service
pub mod Statuses
pub mod Keys
pub mod Refine
mod Samples
