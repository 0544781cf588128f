-- ===== src/Std.antt =====
-- Rust's standard library, as far as the program uses it: text, the two maps, floats.
pub mod Text
pub mod HashMap
pub mod BTreeMap
pub mod Decimal
pub mod Bytes
pub mod Bincode
pub mod Platform
