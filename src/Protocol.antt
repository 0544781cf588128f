-- ===== src/Protocol.antt =====
-- The MySQL wire protocol: src/protocol/.
pub mod Lenenc
pub mod Frame
pub mod Command
pub mod Resultset
pub mod Handshake
pub mod Auth
