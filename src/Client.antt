-- ===== src/Client.antt =====
-- src/zk/zookeeper.c: the functions of the asynchronous interface that send a request.
mod Defs
mod Calls
mod Multi
unfoldable pub use Defs.*
unfoldable pub use Calls.*
unfoldable pub use Multi.*
pub mod Submitting
pub mod Operations
pub mod Sending
pub mod MultiParts
pub mod MultiLoop
pub mod MultiSending
pub mod Refusing
