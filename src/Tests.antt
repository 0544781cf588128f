-- ===== src/Tests.antt =====
-- Concrete parameters, and the theorems applied to concrete inputs.
pub mod Ascii
pub mod Codecs
pub mod Values
pub mod Serializer
pub mod Data
pub mod WalExamples
pub mod LogExamples
pub mod SessionExamples
pub mod EngineExamples
pub mod InsertExamples
pub mod LikeExamples
pub mod ProtocolExamples
pub mod TimeExamples
pub mod IndexExamples
