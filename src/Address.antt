-- ===== src/Address.antt =====
-- The addresses of src/socket/address.cc and include/address.h.
pub mod Masks
pub mod Swapping
pub mod MaskLaws
pub mod Ipv6Laws
pub mod Compare
pub mod Lookup
pub mod LookupLaws
pub mod Printing
pub mod PrintLaws
pub mod UnixPath
mod Tests
