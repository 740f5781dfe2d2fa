-- ===== src/Credentials.antt =====
-- src/zk/zookeeper.c: credentials on their way to the server.
mod Defs
unfoldable pub use Defs.*
pub mod Sending
pub mod Watches
