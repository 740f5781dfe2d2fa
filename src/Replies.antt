-- ===== src/Replies.antt =====
-- src/zk/zookeeper.c: what the client does with the frames that the server sends, and how completions
-- and watchers are told.
mod Defs
mod Answers
mod Completing
mod Sync
mod Errors
mod Processing
unfoldable pub use Defs.*
unfoldable pub use Answers.*
unfoldable pub use Completing.*
unfoldable pub use Sync.*
unfoldable pub use Errors.*
unfoldable pub use Processing.*
pub mod Triples
pub mod Keeping
pub mod Counting
pub mod Failing
pub mod Notices
pub mod Announcing
pub mod Losing
pub mod Stranding
pub mod Matching
pub mod Closing
