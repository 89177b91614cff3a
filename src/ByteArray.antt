-- ===== src/ByteArray.antt =====
-- The class ByteArray of src/utils/bytearray.cc: a growing buffer kept as a linked list of nodes.
pub mod Memory
pub mod State
pub mod Position
pub mod Valid
pub mod Grow
pub mod Access
pub mod Flat
pub mod Tape
pub mod Here
pub mod Writing
pub mod Reading
pub mod Moving
pub mod Buffers
pub mod Codec
pub mod Integers
pub mod Wire
pub mod Zigzag
pub mod Varint
pub mod Stream
pub mod ReadGroups
pub mod RoundTrip
mod Tests
