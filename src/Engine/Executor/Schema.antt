-- ===== src/Engine/Executor/Schema.antt =====
-- src/engine/executor.rs: CREATE and DROP of tables and databases.
use srrdb.Prelude.{
  Bool, ◌||◌, none, some, [], ◌∷◌, ◌++◌, nat_eq, list_eq, if◌then◌else◌, map, ok, err, done, failed,
}
use srrdb.Std.Text.{Text, codes, starts_with}
use srrdb.Std.HashMap.{HashMap}
use srrdb.Std.Platform.{Platform}
use srrdb.Sql.Statements.{CreateTable, ObjectName}
use srrdb.Engine.Storage.{clear_table}
use srrdb.Engine.Catalog
use srrdb.Engine.Catalog.{unknown_database}
use srrdb.Engine.Names.{name_to_string, column_of}
use srrdb.Engine.Wal.{Bytes, Bincode, WalEntry}
use srrdb.Engine.Persistence
use srrdb.Engine.Persistence.{Files}
use srrdb.Engine.ExecuteResult.{ExecuteResult}
use srrdb.Engine.State.{Executor, Step, lock_catalog, lock_storage, log_wal, save}

-- `str::contains` of a text
unfoldable pub has_infix : Text → Text → Bool
has_infix [] part = starts_with [] part
has_infix (c ∷ s) part = starts_with (c ∷ s) part || has_infix s part

-- the index files that DROP TABLE leaves
unfoldable pub keep_files : Text → HashMap Text Bytes → HashMap Text Bytes
unfolding has_infix
keep_files tn [] = []
keep_files tn ((name, data_bytes) ∷ m) =
    let rest = keep_files tn m in
    let fname = name ++ codes ".idx" in
    if starts_with fname tn || has_infix fname (codes "_" ++ (tn ++ codes "_"))
    then rest
    else (name, data_bytes) ∷ rest

module _ ⦃p : Platform⦄ ⦃b : Bincode⦄ where
  -- `execute_create_table`: the log has the entry before the catalog is asked
  unfoldable pub execute_create_table : Executor → Text → CreateTable → Step
  execute_create_table x db ct =
      let table_name = name_to_string ct.name in
      elim (lock_catalog x) [
        | err e ↦ (x, failed e)
        | ok c ↦
            let cols = map (column_of table_name) ct.columns in
            let x1 = log_wal x (WalEntry.create_table table_name cols) in
            elim (Catalog.create_table c db table_name cols) [
              | err e ↦ (x1, failed e)
              | ok c' ↦ (save (record x1 { catalog = c' }), done ExecuteResult.ok)
            ]
      ]

  -- the files after DROP TABLE
  unfoldable pub drop_files : Executor → Text → Executor
  unfolding keep_files
  drop_files x tn = elim x.persistence [
    | none ↦ x
    | some f ↦
        let f' = Persistence.save_catalog (Persistence.remove_table_data f tn) x.catalog in
        record x { persistence = some (record f' { indexes = keep_files tn f'.indexes }) }
  ]

  -- `execute_drop_table`: the log has the entry before the catalog is asked
  unfoldable pub execute_drop_table : Executor → Text → Text → Step
  execute_drop_table x db table_name =
      let tn = p.to_lowercase table_name in
      let x1 = log_wal x (WalEntry.drop_table tn) in
      elim (lock_catalog x1) [
        | err e ↦ (x1, failed e)
        | ok c ↦ elim (Catalog.drop_table c db tn) [
          | err e ↦ (x1, failed e)
          | ok c' ↦
              let x2 = record x1 { catalog = c' } in
              elim (lock_storage x2) [
                | err e ↦ (x2, failed e)
                | ok s ↦ (
                  drop_files (record x2 { storage = clear_table s tn }) tn,
                  done ExecuteResult.ok,
                )
              ]
        ]
      ]

  -- `execute_create_database`
  unfoldable pub execute_create_database : Executor → ObjectName → Step
  execute_create_database x db_name = elim (lock_catalog x) [
    | err e ↦ (x, failed e)
    | ok c ↦ (
      save (record x { catalog = Catalog.create_database c (name_to_string db_name) }),
      done ExecuteResult.ok,
    )
  ]

  -- `execute_drop_database`: the rows of its tables stay in the storage
  unfoldable pub execute_drop_database : Executor → Text → Step
  execute_drop_database x db_name = elim (lock_catalog x) [
    | err e ↦ (x, failed e)
    | ok c ↦
        let removed = Catalog.remove_database c db_name in
        let x1 = record x { catalog = removed.0 } in
        elim removed.1 [
          | none ↦ (x1, failed (unknown_database db_name))
          | some _ ↦ (save x1, done ExecuteResult.ok)
        ]
  ]
