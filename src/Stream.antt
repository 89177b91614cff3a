-- ===== src/Stream.antt =====
-- Stream of src/stream/stream.cc, over any way to read and to write.
pub mod Reading
pub mod Writing
mod Tests
