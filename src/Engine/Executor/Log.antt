-- ===== src/Engine/Executor/Log.antt =====
-- src/engine/executor.rs and src/engine/wal.rs: what the statements write to the log, and what its
-- replay makes of it.
pub mod Snapshot
pub mod Filled
pub mod Changes
pub mod Statements
pub mod Replayed
