-- ===== src/Engine.antt =====
-- consensus/cryptarchia-engine: slots and epochs, the tree of blocks, and the fork choice rule.
pub mod Time
pub mod Clock
pub mod Branches
pub mod Chain
pub mod Growth
pub mod Lowest
pub mod Before
pub mod Cryptarchia
pub mod Choice
pub mod Receive
pub mod Security
pub mod Samples
