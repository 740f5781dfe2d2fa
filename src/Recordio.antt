-- ===== src/Recordio.antt =====
-- src/zk/recordio.c and include/recordio.h: the archives over a byte buffer.
-- A `BuffStruct` is `struct buff_struct`; `buffer` is the memory block, `none` for a null pointer.
-- A function on an archive returns `none` where C has undefined behaviour: an access outside the
-- block, through a null pointer, or a signed overflow. `fail` carries a negative errno.
-- Words of 32 and 64 bits are their bit patterns, below 2 ^ 32 and 2 ^ 64.
mod Defs
mod Words
mod Ops
pub mod Spec
pub mod Growth
pub mod Output
pub mod Input
pub mod Safety
pub mod Transfer
pub mod NullString
pub mod Rules
unfoldable pub use Defs.*
unfoldable pub use Words.*
unfoldable pub use Ops.*
