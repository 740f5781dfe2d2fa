-- ===== src/Handshake.antt =====
-- src/zk/zookeeper.c and src/zk/zk_adaptor.h: the first exchange of a connection.
mod Defs
unfoldable pub use Defs.*
pub mod Layout
pub mod Finishing
