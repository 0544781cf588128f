-- ===== src/Engine.antt =====
-- The storage engine: src/engine/.
pub mod Types
pub mod Index
pub mod Storage
pub mod Catalog
pub mod Like
pub mod Eval
pub mod Query
pub mod Sort
pub mod Names
pub mod Timestamp
pub mod Wal
pub mod Persistence
pub mod ExecuteResult
pub mod State
pub mod Executor
