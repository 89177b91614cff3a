-- ===== src/Log.antt =====
-- The log of src/log/Logger.cc: the patterns of LogFormatter.
pub mod Pattern
pub mod PatternLaws
pub mod Scanning
pub mod Printing
pub mod RoundTrip
pub mod Loggers
pub mod Levels
pub mod Calls
pub mod Formatters
pub mod Registered
pub mod Applied
pub mod CallLaws
mod Tests
