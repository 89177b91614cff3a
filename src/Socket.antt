-- ===== src/Socket.antt =====
-- Sockets of src/socket/socket.cc.
pub mod State
pub mod Opening
pub mod Clients
pub mod Calls
pub mod Bound
mod Tests
