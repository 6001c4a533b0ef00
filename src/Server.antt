-- ===== src/Server.antt =====
-- internal/server: the manifest protocol, the handler of one connection, and the accept loop.
pub mod Types
pub mod Hex
pub mod Protocol
pub mod Progress
pub mod Conn
pub mod Accept
