-- ===== src/Fiber.antt =====
-- Fibers and their scheduler: src/fiber/fiber.cc and src/fiber/scheduler.cc.
pub mod State
pub mod Lifecycle
pub mod Scheduler
pub mod Picking
pub mod Counting
pub mod Reaching
mod Tests
