-- ===== src/Peers.antt =====
-- nomos-da/network/core/src: the connections to other peers. The balancer dials where a subnetwork
-- lacks connections (Balancer, Behaviour, Dialing, Counts), and the monitor denies peers that misbehave (Monitor,
-- Cooldown, Held, Denial) by the rates of
-- their failures (Failures, Counted, Bounds, Rates).
pub mod Balancer
pub mod Behaviour
pub mod Dialing
pub mod Counts
pub mod Monitor
pub mod Cooldown
pub mod Held
pub mod Denial
pub mod Failures
pub mod Counted
pub mod Bounds
pub mod Rates
mod Samples
