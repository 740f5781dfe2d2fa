-- ===== src/Paths.antt =====
-- src/zk/zookeeper.c: the paths of a client, with and without a chroot.
mod Defs
unfoldable pub use Defs.*
pub mod Chroot
pub mod Checks
pub mod Requests
