-- ===== src/Http.antt =====
-- The HTTP messages of src/http/http.cc and src/http/include/http.h, and the servlets of
-- src/http/servlet.cc.
pub mod Names
pub mod FieldMap
pub mod Ordered
pub mod Params
pub mod ParamLaws
pub mod Message
pub mod Requests
pub mod Codes
pub mod Dump
pub mod DumpLaws
pub mod ResponseLaws
pub mod Servlets
pub mod ServletLaws
pub mod Session
pub mod SessionLaws
pub mod ServerLaws
mod Tests
mod ServletTests
mod SessionTests
pub mod Flags
pub mod RequestLaws
pub mod Calls
pub mod Reading
pub mod Queries
