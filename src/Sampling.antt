-- ===== src/Sampling.antt =====
-- nomos-services/data-availability/sampling/src/backend: the blobs that are being sampled and those
-- that are (Backend), what a validated blob has behind it (Tracked, Reports), and that sampling ends (Progress).
pub mod Backend
pub mod Tracked
pub mod Reports
pub mod Progress
mod Samples
