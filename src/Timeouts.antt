-- ===== src/Timeouts.antt =====
-- src/zk/zookeeper.c: how long a client may wait for its socket, and when it sends a ping.
mod Defs
unfoldable pub use Defs.*
pub mod Intervals
pub mod Waits
