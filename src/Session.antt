-- ===== src/Session.antt =====
-- src/zk/zookeeper.c: the requests that wait for an answer.
mod Defs
unfoldable pub use Defs.*
pub mod Completions
pub mod Adding
