-- ===== src/Engine/State.antt =====
-- src/engine/executor.rs: the state of the executor, its locks, its log and files, and the upkeep
-- of the indexes. A statement runs alone: nothing else takes a lock between its steps.
pub mod Maintained
use srrdb.Prelude.{
  Bool, Option, none, some, List, [], ◌∷◌, ◌++◌, nat_eq, list_eq, if◌then◌else◌, Result, err,
  Outcome, unwrap_or,
}
use srrdb.Std.Text.{Text, codes, starts_with}
use srrdb.Std.HashMap
use srrdb.Std.HashMap.{HashMap}
use srrdb.Std.Platform.{Platform}
use srrdb.Engine.Types.Columns.{Column}
use srrdb.Engine.Index
use srrdb.Engine.Index.{IndexDef, IndexData}
use srrdb.Engine.Storage.{Row, Storage}
use srrdb.Engine.Catalog.{Catalog}
use srrdb.Engine.Query.{get_index_key, index_key}
use srrdb.Engine.Wal
use srrdb.Engine.Wal.{Bytes, Bincode, WalEntry}
use srrdb.Engine.ExecuteResult.{ExecuteResult}
use srrdb.Engine.Persistence
use srrdb.Engine.Persistence.{Files}

-- `persistence` is the directory's files, where the executor has one. A lock is poisoned once a
-- statement panics while it holds it.
pub record Executor : Type 0 where
  pub catalog : Catalog
  pub catalog_poisoned : Bool
  pub storage : Storage
  pub storage_poisoned : Bool
  pub wal : Bytes
  pub persistence : Option Files

abbrev pub lock_error : Text
lock_error = codes "Lock error: poisoned lock: another task failed inside"

-- a statement's new state and what it comes to
abbrev pub Step : Type 0
Step = Executor × Outcome ExecuteResult Text

-- `self.catalog.lock()` and `self.storage.lock()`
unfoldable pub lock_catalog : Executor → Result Catalog Text
lock_catalog x = if x.catalog_poisoned then err lock_error else Result.ok x.catalog

unfoldable pub lock_storage : Executor → Result Storage Text
lock_storage x = if x.storage_poisoned then err lock_error else Result.ok x.storage

module _ ⦃p : Platform⦄ ⦃b : Bincode⦄ where
  -- `log_wal`
  unfoldable pub log_wal : Executor → WalEntry → Executor
  log_wal x e = record x { wal = x.wal ++ Wal.serialize e }

  -- `save`
  unfoldable pub save : Executor → Executor
  save x = elim x.persistence [
    | none ↦ x
    | some f ↦
        if x.catalog_poisoned
        then x
        else record x { persistence = some (Persistence.save_catalog f x.catalog) }
  ]

  -- the index files that `save_table` writes
  unfoldable pub save_indexes : Text → HashMap Text IndexData → Files → Files
  save_indexes prefix [] f = f
  save_indexes prefix ((key, d) ∷ m) f =
      save_indexes prefix m
        (if starts_with key prefix then Persistence.save_index_data f key d else f)

  -- `save_table`
  unfoldable pub save_table : Executor → Text → Executor
  unfolding save_indexes
  save_table x table_name = elim x.persistence [
    | none ↦ x
    | some f ↦
        if x.storage_poisoned
        then x
        else let tn = p.to_lowercase table_name in
          let f' : Files = elim (HashMap.get x.storage.tables tn) [
            | none ↦ f
            | some t ↦ Persistence.save_table_data f tn t
          ] in
          record x { persistence = some (save_indexes (tn ++ codes ":") x.storage.index_data f') }
  ]

module _ ⦃p : Platform⦄ where
  -- `insert_into_indexes_raw`
  unfoldable pub insert_into_indexes_raw :
      HashMap Text IndexData → Text → List IndexDef → List Column → Row → HashMap Text IndexData
  insert_into_indexes_raw m table_name [] columns row = m
  insert_into_indexes_raw m table_name (def ∷ defs) columns row =
      let k = index_key (p.to_lowercase table_name) def.name in
      let d = unwrap_or (HashMap.get m k) (Index.new def.index_type) in
      insert_into_indexes_raw
        (HashMap.insert m k (Index.insert d (get_index_key row def columns) row.id)) table_name defs
        columns row

  -- `delete_from_indexes_raw`
  unfoldable pub delete_from_indexes_raw :
      HashMap Text IndexData → Text → List IndexDef → List Column → Row → HashMap Text IndexData
  delete_from_indexes_raw m table_name [] columns row = m
  delete_from_indexes_raw m table_name (def ∷ defs) columns row =
      let k = index_key (p.to_lowercase table_name) def.name in
      let m' : HashMap Text IndexData = elim (HashMap.get m k) [
        | none ↦ m
        | some d ↦ HashMap.insert m k (Index.delete d (get_index_key row def columns) row.id)
      ] in
      delete_from_indexes_raw m' table_name defs columns row

  -- the same for a list of rows
  unfoldable pub insert_rows_into_indexes :
      HashMap Text IndexData
      → Text
      → List IndexDef
      → List Column
      → List Row
      → HashMap Text IndexData
  insert_rows_into_indexes m table_name defs columns [] = m
  insert_rows_into_indexes m table_name defs columns (row ∷ rows) =
      insert_rows_into_indexes (insert_into_indexes_raw m table_name defs columns row) table_name
        defs columns rows

  unfoldable pub delete_rows_from_indexes :
      HashMap Text IndexData
      → Text
      → List IndexDef
      → List Column
      → List Row
      → HashMap Text IndexData
  delete_rows_from_indexes m table_name defs columns [] = m
  delete_rows_from_indexes m table_name defs columns (row ∷ rows) =
      delete_rows_from_indexes (delete_from_indexes_raw m table_name defs columns row) table_name
        defs columns rows
