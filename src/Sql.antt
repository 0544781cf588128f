-- ===== src/Sql.antt =====
-- The syntax trees that the parser library sqlparser hands to the engine.
pub mod Ast
pub mod Statements
pub mod Parser
pub mod Tokenizer
