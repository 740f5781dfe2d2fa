-- ===== src/Watchers.antt =====
-- src/zk/zk_hashtable.c: the watchers that a handle has registered, and those that an event takes.
mod Defs
pub mod Lists
pub mod Events
pub mod Registering
pub mod Sessions
unfoldable pub use Defs.*
