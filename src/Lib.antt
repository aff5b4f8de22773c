-- ===== src/Lib.antt =====
-- Verification of the nomos node's core: the consensus engine, the ledger under it, the Merkle
-- trees and the leadership lottery that the ledger relies on, the notes and transactions of cl,
-- the service declaration protocol, the mempool, of data availability the sampling of blobs, the
-- assignation of peers to subnetworks and the upkeep of connections, and of blend the judging of
-- connections and the stream of messages.
--
-- How the parts interact. A block header reaches `Cryptarchia::receive_block`, which adds it to
-- the tree of blocks and chooses the node's chain. The ledger's `Ledger::try_update` takes the
-- block in on the state of its parent: it moves the epoch on, applies orphan proofs and the
-- block's leader proof, and stores the new state under the block's id. The consensus service
-- applies a header to both. A leader proof is checked against public inputs made of the epoch's
-- nonce and stake, and against roots of the trees of notes. The declaration protocol keeps
-- messages of providers back, per block, until the block is marked or discarded. A partial
-- transaction commits to its notes by Merkle roots, and a bundle balances when its partial
-- transactions together do. The mempool's services put items into the pool and mark those that a
-- block holds; the blobs' service has each item from the network sampled, and the sampling
-- backend counts the subnetworks that answered. The peers of a subnetwork come from the
-- assignation, which the balancer reads to find whom to dial; the monitor denies connections to
-- peers that failed. A blend node unwraps a message, holds it in a channel and a queue, and
-- releases it when its scheduler is due.
--
-- Files and what they model:
--   Prelude: what the modules share: tests on numbers, outcomes of calls (a `Result`, a panic,
--     or fuel that ran out), words of 32 and 64 bits, lists, maps and sets.
--   Engine/Time: consensus/cryptarchia-engine/src/time.rs and config.rs (Slot, Epoch,
--     EpochConfig, Config); Clock holds the proofs.
--   Engine/Branches, Engine/Cryptarchia: consensus/cryptarchia-engine/src/lib.rs
--     (Branches::apply_header, lca and walk_back_before; Cryptarchia::maxvalid_bg,
--     receive_block, get_security_block_header_id). Chain, Growth, Lowest, Before, Choice,
--     Receive and Security hold the proofs.
--   Merkle: nomos-core/cl/src/merkle.rs (padded_leaves, root, path_root, path), with Levels,
--     Membership and Leaves.
--   Leadership: nomos-core/proof_statements/src/leadership.rs (LeaderPublic::new, phi_approx,
--     check_winning), with Overflow.
--   Ledger/Config, Ledger/NoteTree, Ledger/State, Ledger/Store:
--     ledger/nomos-ledger/src/config.rs, notetree.rs, lib.rs and leader_proof.rs (LedgerState
--     and EpochState in State, Ledger in Store). Snapshots, Epochs, Spending, Accepted, Rolling,
--     Trees, Notes and Blocks hold the proofs.
--   Sdp/Types, Sdp/State: nomos-sdp/src/lib.rs and state.rs; Transitions holds the proofs.
--   Sdp/Interfaces, Sdp/Pending, Sdp/Ledger, Sdp/Block: nomos-sdp/src/ledger.rs: its traits,
--     the state of SdpLedger, process_sdp_message and what it calls, and mark_in_block and
--     discard_block. Action is the state passing of its methods; Runs, Atomic and Marking hold
--     the proofs.
--   Cl/Notes, Cl/Balance, Cl/Partial: nomos-core/cl/src/note.rs, nullifier.rs, input.rs,
--     output.rs, balance.rs, bundle.rs and partial_tx.rs. Accounts, Settled, Bundles and
--     Membership hold the proofs.
--   Mempool/Pool, Mempool/Service: nomos-services/mempool/src/backend/mockpool/mod.rs
--     (MockPool), and tx/service.rs and da/service.rs (handle_mempool_message and the loop of
--     run). Statuses is the specification, and Keys and Refine hold the proof.
--   Sampling/Backend: nomos-services/data-availability/sampling/src/backend/kzgrs.rs
--     (KzgrsSamplingBackend). Tracked, Reports and Progress hold the proofs.
--   Subnetworks/Assign, Subnetworks/Handler:
--     nomos-da/network/subnetworks-assignations/src/versions/v1.rs and v2.rs (fill, and the
--     MembershipHandler of lib.rs). Cycle, Sorted and Cover hold the proofs.
--   Peers/Balancer, Peers/Behaviour: nomos-da/network/core/src/swarm/common/balancer.rs and
--     policy.rs (DAConnectionBalancer, here DaConnectionBalancer) and maintenance/balancer.rs
--     (ConnectionBalancerBehaviour). Dialing and Counts hold the proofs.
--   Peers/Monitor: nomos-da/network/core/src/maintenance/monitor.rs
--     (ConnectionMonitorBehaviour), with Cooldown, Held and Denial.
--   Peers/Failures: nomos-da/network/core/src/swarm/common/monitor.rs (DAConnectionMonitor,
--     here DaConnectionMonitor) and the health policy of policy.rs, with Counted, Bounds and
--     Rates.
--   Blend/Connection, Blend/Stream: nomos-blend/core/src/conn_maintenance.rs
--     (ConnectionMonitor), and message_blend/temporal.rs and mod.rs (TemporalProcessor,
--     TemporalStream, MessageBlendStream). Judged and Order hold the proofs.
--   Consensus/Chain: nomos-services/cryptarchia-consensus/src/lib.rs (the service's
--     Cryptarchia), an engine and a ledger side by side, with InStep.
--   Samples of each part: concrete inputs.
--
-- Correspondence. Ids, digests, nullifiers, nonces and addresses are numbers: the code only
-- compares them. A `Result` is `ok` or `err`; `expect`, indexing out of range, checked arithmetic
-- that is unwrapped and division by zero are `panic`. Integers keep their width, but for `usize`
-- counts: wrapping and saturating operations are written out. Fields of `&mut self` are passed on
-- explicitly, and what was written before an error stays written. A set or table that the code
-- iterates is iterated in an order that is an argument, or in that of its list where the result
-- does not depend on it.
--
-- Parameters. SHA-256 of the trees (`Hasher`), Blake2b digests (`Crypto`, `Digests`), operations
-- on f64 (`FloatOps`), the check of a leader proof (a field of `LeaderProof`), and the
-- repositories, the rewards sender and the stakes verifier of the declaration protocol
-- (`External`) are not part of the code, and are arguments. So are the digests and encodings of
-- cl (`Commitments`, `Encoding`), random choices (`Choose`, and the functions that `Draws`
-- describes), the monitor that judges peers (`Monitor`), the exponential in the failure rates
-- (`Decay`), the cipher of blend (`Unwrap`), and the instants that are read from a clock. The
-- latest date of an `OffsetDateTime` is the argument `latest` of `next_slot_start`.
--
-- Fuel. `clear_loop` has the length of its vector as fuel, and each round passes an element or
-- removes one. `climb`, `meet` and `walk_back` follow parents, and their fuel is the length of
-- the chain that they climb: every parent is shorter by one, so that genesis is reached before it
-- runs out. No theorem about these loops assumes that they return.
--
-- Not modelled: serialisation, logging, networking and the asynchronous services, which are input
-- and output around these parts; the ciphers and proof systems of other crates; the timer that
-- ticks at the starts of slots; the panic of the blobs' mempool service when the sampling service
-- takes no message, which ends a run before the item. The other parts of the repository with
-- logic of their own (the rest of blend, the encoding of blobs, the loop of the consensus
-- service) are not part of this library yet.
pub mod Prelude
pub mod Engine
pub mod Merkle
pub mod Leadership
pub mod Ledger
pub mod Sdp
pub mod Cl
pub mod Mempool
pub mod Sampling
pub mod Subnetworks
pub mod Peers
pub mod Blend
pub mod Consensus
