-- ===== src/Engine/Executor.antt =====
-- src/engine/executor.rs: `Executor::execute`, and the runs of statements.
pub mod Insert
pub mod Change
pub mod Select
pub mod Indexes
pub mod Schema
pub mod Show
pub mod Poison
pub mod Log
use srrdb.Prelude.{
  ℕ, Bool, true, false, not, ◌&&◌, ◌||◌, Option, none, some, List, [], ◌∷◌, ◌++◌, if◌then◌else◌,
  Result, ok, err, Outcome, done, failed, panicked,
}
use srrdb.Std.Text.{Text, codes}
use srrdb.Std.Platform.{Platform}
use srrdb.Sql.Statements.{
  ObjectName, Statement, Delete, ObjectType, TableFactor, CreateTable, CreateIndex, Query,
}
use srrdb.Engine.Catalog
use srrdb.Engine.Catalog.{unknown_table, unknown_index}
use srrdb.Engine.Names.{name_to_string, table_factor_name, table_object_name}
use srrdb.Engine.Wal.{Bincode}
use srrdb.Engine.ExecuteResult.{ExecuteResult}
use srrdb.Engine.State.{Executor, Step, lock_catalog}
use Insert.{execute_insert}
use Change.{execute_delete, execute_update}
use Select.{execute_query}
use Indexes.{execute_create_index, execute_drop_index, find_index_table, index_exists}
use Schema.{
  execute_create_table, execute_drop_table, execute_create_database, execute_drop_database,
}
use Show.{execute_show_tables, execute_show_databases, execute_use, execute_describe}

-- `names.first().map(name_to_string).unwrap_or_default()`
abbrev pub first_name : List ObjectName → Text
first_name [] = []
first_name (name ∷ names) = name_to_string name

-- the table of DELETE: the first named, else the first of FROM
abbrev pub delete_table : Delete → Text
delete_table del = elim del.tables [
  | name ∷ names ↦ name_to_string name
  | [] ↦ elim del.from [ [] ↦ [] | factor ∷ factors ↦ table_factor_name factor ]
]

module _ ⦃p : Platform⦄ where
  -- `table_exists` and `database_exists`: false under a poisoned lock
  unfoldable pub table_exists : Executor → Text → Text → Bool
  table_exists x db name = elim (lock_catalog x) [
    | err _ ↦ false
    | ok c ↦ Catalog.table_exists c db name
  ]

  unfoldable pub database_exists : Executor → Text → Bool
  database_exists x db = elim (lock_catalog x) [
    | err _ ↦ false
    | ok c ↦ Catalog.database_exists c db
  ]

module _ ⦃p : Platform⦄ ⦃b : Bincode⦄ where
  -- DROP INDEX finds the table first, and fails without one, also under IF EXISTS
  unfoldable pub drop_index : Executor → Text → Text → Bool → Step
  drop_index x db name if_exists = elim (lock_catalog x) [
    | err e ↦ (x, failed e)
    | ok c ↦ elim (find_index_table db name c) [
      | none ↦ (x, failed (unknown_index name))
      | some table_name ↦
          if if_exists && not (index_exists x db name table_name)
          then (x, done ExecuteResult.ok)
          else execute_drop_index x db name table_name
    ]
  ]

  abbrev pub execute_drop : Executor → Text → ObjectType → Text → Bool → Step
  execute_drop x db ObjectType.table name if_exists =
      if if_exists && not (table_exists x db name)
      then (x, done ExecuteResult.ok)
      else execute_drop_table x db name
  execute_drop x db ObjectType.database name if_exists =
      if if_exists && not (database_exists x name)
      then (x, done ExecuteResult.ok)
      else execute_drop_database x name
  execute_drop x db ObjectType.index name if_exists = drop_index x db name if_exists
  execute_drop x db (ObjectType.other _) name if_exists =
      (x, failed (codes "Unsupported statement"))

  -- `Executor::execute` at the time `now`
  unfoldable pub execute : ℕ → Executor → Text → Statement → Step
  execute now x db (Statement.create_table ct) =
      if ct.if_not_exists && table_exists x db (name_to_string ct.name)
      then (x, done ExecuteResult.ok)
      else execute_create_table x db ct
  execute now x db (Statement.insert ins) =
      execute_insert now x db (table_object_name ins.table) ins.columns ins.source
  execute now x db (Statement.query q) = (x, execute_query x db q)
  execute now x db (Statement.delete del) = execute_delete x db (delete_table del) del.selection
  execute now x db (Statement.update factor assignments selection) =
      execute_update x db (table_factor_name factor) assignments selection
  execute now x db (Statement.drop type names if_exists) =
      execute_drop x db type (first_name names) if_exists
  execute now x db (Statement.create_database name if_not_exists) =
      if if_not_exists && database_exists x (name_to_string name)
      then (x, done ExecuteResult.ok)
      else execute_create_database x name
  execute now x db Statement.show_databases = (x, execute_show_databases x)
  execute now x db Statement.show_tables = (x, execute_show_tables x db)
  execute now x db (Statement.use_database target) = (x, execute_use x target)
  execute now x db (Statement.explain_table name) = (x, execute_describe x db (name_to_string name))
  execute now x db (Statement.create_index ci) =
      let table_name = name_to_string ci.table_name in
      if not (table_exists x db table_name)
      then (x, failed (unknown_table table_name))
      else execute_create_index x db table_name ci
  execute now x db (Statement.other _) = (x, failed (codes "Unsupported statement"))
