-- ===== src/Blend.antt =====
-- nomos-blend/core/src: the messages that a connection is judged by (Connection, Judged), and the way
-- of a message through the blending (Stream, Order).
pub mod Connection
pub mod Judged
pub mod Stream
pub mod Order
mod Samples
