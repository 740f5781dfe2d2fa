-- ===== src/Frames.antt =====
-- src/zk/zookeeper.c: packets on the socket, each behind its length in network order.
-- A call of send or recv is an event: what the socket answers.
mod Defs
mod Queue
unfoldable pub use Defs.*
unfoldable pub use Queue.*
pub mod Sending
pub mod Flushing
pub mod Emptying
pub mod Receiving
pub mod LengthWord
pub mod Payloads
pub mod Reassembly
pub mod Delivery
pub mod Pointers
pub mod Linked
pub mod Refining
