-- ===== src/Utils.antt =====
-- The string functions of src/utils/utils.cc.
pub mod Url
pub mod UrlLaws
pub mod Strings
mod Tests
