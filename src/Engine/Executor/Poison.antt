-- ===== src/Engine/Executor/Poison.antt =====
-- The statements under a poisoned lock.
use srrdb.Prelude.{ℕ, ◌≡◌, Bool, true, false, ◌∷◌, arith, failed}
use srrdb.Std.Text.{Text}
use srrdb.Std.Platform.{Platform}
use srrdb.Sql.Statements.{Statement, SetExpr}
use srrdb.Engine.Wal.{Bincode}
use srrdb.Engine.State.{Executor, lock_catalog, lock_error}
use srrdb.Engine.Executor.{execute}
use srrdb.Engine.Executor.Insert.{execute_insert}
use srrdb.Engine.Executor.Change.{execute_delete, execute_update}
use srrdb.Engine.Executor.Select.{execute_query, select_from}

abbrev pub has_from : SetExpr → Bool
has_from (SetExpr.select projection (factor ∷ more) selection) = true
has_from _ = false

-- INSERT, DELETE, UPDATE, and SELECT from a table
abbrev pub is_data : Statement → Bool
is_data (Statement.insert ins) = true
is_data (Statement.delete del) = true
is_data (Statement.update factor assignments selection) = true
is_data (Statement.query q) = has_from q.body
is_data _ = false

module _ ⦃p : Platform⦄ ⦃b : Bincode⦄ where
  -- Once the catalog's lock is poisoned, every INSERT, DELETE, UPDATE and SELECT from a table fails
  -- with the lock's error and changes nothing.
  pub execute-poisoned :
      (now : ℕ) (x : Executor) (db : Text) (s : Statement)
      → x.catalog_poisoned ≡ true
      → is_data s ≡ true
      → execute now x db s ≡ (x, failed lock_error)
  unfolding execute execute_insert execute_delete execute_update execute_query select_from
      lock_catalog
  execute-poisoned now x db s h d = ground (arith, h, d)
