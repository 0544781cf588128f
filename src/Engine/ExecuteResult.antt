-- ===== src/Engine/ExecuteResult.antt =====
-- src/engine/executor.rs: what a statement that succeeds comes to.
use srrdb.Prelude.{ℕ, List}
use srrdb.Std.Text.{Text}
use srrdb.Engine.Types.Columns.{Column}
use srrdb.Engine.Storage.{Row}

pub data ExecuteResult : Type 0 where
  rows : List Column → List Row → ExecuteResult
  -- the rows, and the last insert id
  affected : ℕ → ℕ → ExecuteResult
  database_changed : Text → ExecuteResult
  ok : ExecuteResult
