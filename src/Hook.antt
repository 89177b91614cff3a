-- ===== src/Hook.antt =====
-- The hooks of src/hook: the table of file descriptors and the system calls that are replaced.
pub mod FdManager
pub mod FdLaws
pub mod Calls
pub mod Nonblock
pub mod Steps
pub mod Reaching
pub mod Io
pub mod IoLaws
mod Tests
