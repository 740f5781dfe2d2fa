-- ===== src/Auth.antt =====
-- src/zk/zookeeper.c: the credentials that a client has added, and the answers of the server.
mod Defs
unfoldable pub use Defs.*
pub mod Completions
