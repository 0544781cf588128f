-- ===== src/Server/Startup.antt =====
-- src/server/listener.rs: how `start` builds the state from the data directory.
pub mod Recovered
use srrdb.Prelude.{
  false, Option, none, some, List, [], ◌∷◌, if◌then◌else◌, unwrap_or, is_empty, nat_eq, list_eq,
}
use srrdb.Std.Text.{Text}
use srrdb.Std.HashMap
use srrdb.Std.HashMap.{HashMap}
use srrdb.Std.Platform.{Platform}
use srrdb.Engine.Storage
use srrdb.Engine.Storage.{Storage, insert_rows}
use srrdb.Engine.Catalog
use srrdb.Engine.Catalog.{Catalog, DatabaseDef, TableDef}
use srrdb.Engine.Wal.{Bytes, Bincode, Database, replayed, panicked, replay}
use srrdb.Engine.Wal.Checkpoint.{restored, invalid, crashed, replay_checkpoint}
use srrdb.Engine.Persistence.{Files, load_catalog, load_table_data, has_existing_data}
use srrdb.Engine.State.{Executor}
use srrdb.Engine.Executor.Indexes.{rebuild_indexes}

module _ ⦃p : Platform⦄ ⦃b : Bincode⦄ where
  -- the rows of the files, for the tables of one database
  unfoldable pub load_tables : Files → HashMap Text TableDef → Storage → Storage
  load_tables f [] s = s
  load_tables f ((name, def) ∷ m) s =
      load_tables f m
        (elim (load_table_data f name) [ none ↦ s | some rows ↦ (insert_rows s name rows).0 ])

  unfoldable pub load_databases : Files → List DatabaseDef → Storage → Storage
  unfolding load_tables
  load_databases f [] s = s
  load_databases f (db ∷ dbs) s = load_databases f dbs (load_tables f db.tables s)

  -- the catalog and the rows of the files
  unfoldable pub load_files : Files → Database
  unfolding load_databases
  load_files f =
      let c = unwrap_or (load_catalog f) Catalog.new in
      record { catalog = c; storage = load_databases f (HashMap.values c.databases) Storage.new }

  -- the log's checkpoint, else the files with the log replayed on top; `none` is a panic
  unfoldable pub recover : Files → Bytes → Option Database
  recover f wal = if is_empty wal then some (load_files f) else elim (replay_checkpoint wal) [
    | restored d ↦ some d
    | crashed ↦ none
    | invalid ↦ elim (replay wal (load_files f)) [ replayed d _ ↦ some d | panicked ↦ none ]
  ]

  abbrev pub executor_of : Files → Bytes → Database → Executor
  executor_of f wal d = record {
    catalog = d.catalog;
    catalog_poisoned = false;
    storage = d.storage;
    storage_poisoned = false;
    wal = wal;
    persistence = some f;
  }

  -- the state with which `start` begins to listen, from the files and the log; `none` is a panic
  unfoldable pub start : Files → Bytes → Option Executor
  start f wal =
      if has_existing_data f
      then elim (recover f wal) [
        | none ↦ none
        | some d ↦ some (rebuild_indexes (executor_of f wal d))
      ]
      else some (
          rebuild_indexes
            (executor_of f wal (record { catalog = Catalog.new; storage = Storage.new })))
