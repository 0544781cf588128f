-- ===== src/Server.antt =====
-- The server: src/server/.
pub mod Startup
pub mod Session
pub mod Connection
