-- ===== src/IoManager.antt =====
-- The class IOManager of src/fiber/iomannager.cc: the events that fibers and callbacks wait for.
pub mod State
pub mod Context
pub mod Pending
pub mod Dispatch
pub mod Arming
pub mod Idle
pub mod IdleLaws
mod Tests
mod IdleTests
