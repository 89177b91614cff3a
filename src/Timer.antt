-- ===== src/Timer.antt =====
-- The timers of src/timer/timer.cc: objects on a heap, and the ordered set of those that are armed.
pub mod State
pub mod Order
pub mod Set
pub mod Invariant
pub mod Firing
pub mod Deadline
pub mod Splitting
pub mod Expiry
mod Tests
