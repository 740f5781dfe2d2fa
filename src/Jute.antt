-- ===== src/Jute.antt =====
-- src/zk/zookeeper.jute.c and include/zookeeper.jute.h: the records of the wire protocol. Each record
-- `X` has `serialize_x`, `deserialize_x`, the bytes of its wire form `x_bytes` and the predicate `IsX`
-- of the values that fit it. A C field called `data` is `contents` or `items`.
pub mod Headers
pub mod Multi
pub mod Stats
pub mod Acl
pub mod StringVectors
pub mod Reads
pub mod MoreReads
pub mod Updates
pub mod AclUpdates
pub mod SetWatches
pub mod Events
pub mod Responses
pub mod AclVectors
pub mod AclResponses
