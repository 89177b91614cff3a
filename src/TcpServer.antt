-- ===== src/TcpServer.antt =====
-- The server of src/tcpserver/tcpserver.cc.
pub mod State
pub mod Binding
pub mod Accepting
mod Tests
