-- ===== src/Engine/Executor/Indexes.antt =====
-- src/engine/executor.rs: CREATE INDEX, DROP INDEX, and the rebuilding of the indexes at startup.
pub mod Built
pub mod Refused
use srrdb.Prelude.{
  Bool, false, not, ◌&&◌, Option, none, some, List, [], ◌∷◌, ◌++◌, nat_eq, list_eq, if◌then◌else◌,
  map, Result, ok, err, done, failed, unwrap_or, filter_map, is_empty, any,
}
use srrdb.Std.Text.{Text, codes, join, eq_ignore_ascii_case}
use srrdb.Std.HashMap
use srrdb.Std.HashMap.{HashMap}
use srrdb.Std.BTreeMap
use srrdb.Std.Platform.{Platform}
use srrdb.Sql.Statements.{CreateIndex}
use srrdb.Engine.Types.{to_string}
use srrdb.Engine.Types.Columns.{Column}
use srrdb.Engine.Index
use srrdb.Engine.Index.{IndexDef, IndexData, IndexType, Key, lookup_eq}
use srrdb.Engine.Storage.{Row, Storage, table_or_empty}
use srrdb.Engine.Catalog
use srrdb.Engine.Catalog.{Catalog, TableDef, DatabaseDef, get_table, is_named}
use srrdb.Engine.Query.{extract_column_ref, get_index_key, index_key}
use srrdb.Engine.Names.{name_to_string}
use srrdb.Engine.Wal.{Bincode, WalEntry}
use srrdb.Engine.Persistence
use srrdb.Engine.ExecuteResult.{ExecuteResult}
use srrdb.Engine.State.{Executor, Step, lock_catalog, lock_storage, log_wal, save, save_table}

-- the columns that are plain names
abbrev pub index_columns : CreateIndex → List Text
index_columns ci = filter_map extract_column_ref ci.columns

-- the name given, or one made of the table and the columns
abbrev pub index_name_of : CreateIndex → Text → Text
index_name_of ci table_name = elim ci.name [
  | some name ↦ name_to_string name
  | none ↦ codes "idx_" ++ (table_name ++ (codes "_" ++ join (codes "_") (index_columns ci)))
]

abbrev pub index_type_of : CreateIndex → IndexType
index_type_of ci = elim ci.using_type [
  | none ↦ IndexType.btree
  | some name ↦ if eq_ignore_ascii_case name (codes "hash") then IndexType.hash else IndexType.btree
]

abbrev pub index_def_of : CreateIndex → Text → IndexDef
index_def_of ci table_name = record {
  name = index_name_of ci table_name;
  index_type = index_type_of ci;
  table_name = table_name;
  columns = index_columns ci;
  unique = ci.unique;
}

module _ ⦃p : Platform⦄ where
  abbrev pub duplicate_entry : Key → Text → Text
  duplicate_entry key name =
      codes "Duplicate entry '"
      ++ (join (codes ",") (map to_string key) ++ (codes "' for key '" ++ (name ++ codes "'")))

  -- the data of a new index: the error is the first key that a unique index meets again
  unfoldable pub build_index : IndexDef → List Column → List Row → IndexData → Result IndexData Key
  build_index def columns [] d = ok d
  build_index def columns (row ∷ rows) d =
      let key = get_index_key row def columns in
      let rest = build_index def columns rows (Index.insert d key row.id) in
      if def.unique && not (is_empty (lookup_eq d key)) then err key else rest

  -- the name of the table, in the catalog's spelling, that has the index
  unfoldable pub find_in : Text → HashMap Text (List IndexDef) → Option Text
  find_in index_name [] = none
  find_in index_name ((table_name, indexes) ∷ m) =
      if any (is_named index_name) indexes then some table_name else find_in index_name m

  -- `find_index_table`
  unfoldable pub find_index_table : Text → Text → Catalog → Option Text
  find_index_table db index_name c = elim (Catalog.get_database c db) [
    | none ↦ none
    | some d ↦ find_in index_name d.indexes
  ]

  -- `index_exists`
  unfoldable pub index_exists : Executor → Text → Text → Text → Bool
  index_exists x db index_name table_name = elim (lock_catalog x) [
    | err _ ↦ false
    | ok c ↦ any (is_named index_name) (Catalog.get_table_indexes c db table_name)
  ]

  abbrev pub with_index_data : Storage → HashMap Text IndexData → Storage
  with_index_data s m = record s { index_data = m }

module _ ⦃p : Platform⦄ ⦃b : Bincode⦄ where
  -- the second half of `execute_create_index`, once the catalog and the log have the index
  unfoldable pub fill_index : Executor → Text → IndexDef → TableDef → Step
  fill_index x table_name def table_def = elim (lock_storage x) [
    | err e ↦ (x, failed e)
    | ok s ↦
        let tn = p.to_lowercase table_name in
        let key = index_key tn def.name in
        elim (build_index def table_def.columns (BTreeMap.values (table_or_empty s tn))
          (Index.new def.index_type)) [
            | err k ↦ (
              record x { storage = with_index_data s (HashMap.remove s.index_data key) },
              failed (duplicate_entry k def.name),
            )
            | ok d ↦ (
              save (
                  save_table
                    (record x { storage = with_index_data s (HashMap.insert s.index_data key d) })
                    table_name),
              done ExecuteResult.ok,
            )
          ]
  ]

  -- `execute_create_index`; the catalog keeps the index where the storage refuses it.
  unfoldable pub execute_create_index : Executor → Text → Text → CreateIndex → Step
  execute_create_index x db table_name ci =
      let def = index_def_of ci table_name in
      if is_empty def.columns
      then (x, failed (codes "Index must have at least one column"))
      else elim (lock_catalog x) [
        | err e ↦ (x, failed e)
        | ok c ↦
            let made = Catalog.create_index c db def in
            let x1 = record x { catalog = made.0 } in
            elim made.1 [
              | err e ↦ (x1, failed e)
              | ok _ ↦
                  let x2 = log_wal x1 (WalEntry.create_index db def) in
                  elim (get_table x2.catalog db table_name) [
                    | err e ↦ (x2, failed e)
                    | ok table_def ↦ fill_index x2 table_name def table_def
                  ]
            ]
      ]

  -- `execute_drop_index`
  unfoldable pub execute_drop_index : Executor → Text → Text → Text → Step
  execute_drop_index x db index_name table_name = elim (lock_catalog x) [
    | err e ↦ (x, failed e)
    | ok c ↦ elim (Catalog.drop_index c db index_name table_name) [
      | err e ↦ (x, failed e)
      | ok (c', _) ↦
          let x1 =
            log_wal (record x { catalog = c' }) (WalEntry.drop_index db index_name table_name) in
          let key = index_key (p.to_lowercase table_name) index_name in
          elim (lock_storage x1) [
            | err e ↦ (x1, failed e)
            | ok s ↦ (
              record x1 {
                storage = with_index_data s (HashMap.remove s.index_data key);
                persistence = elim x1.persistence [
                  | none ↦ none
                  | some f ↦ some (Persistence.remove_index_data f key)
                ];
              },
              done ExecuteResult.ok,
            )
          ]
    ]
  ]

module _ ⦃p : Platform⦄ where
  -- an index over all rows, without a test of uniqueness
  unfoldable pub index_rows : IndexDef → List Column → List Row → IndexData → IndexData
  index_rows def columns [] d = d
  index_rows def columns (row ∷ rows) d =
      index_rows def columns rows (Index.insert d (get_index_key row def columns) row.id)

  unfoldable pub rebuild_table :
      Text
      → List Column
      → List Row
      → List IndexDef
      → HashMap Text IndexData
      → HashMap Text IndexData
  unfolding index_rows
  rebuild_table tn columns rows [] m = m
  rebuild_table tn columns rows (def ∷ defs) m = rebuild_table tn columns rows defs (
      HashMap.insert m (index_key tn def.name)
        (index_rows def columns rows (Index.new def.index_type)))

  unfoldable pub rebuild_tables : DatabaseDef → HashMap Text TableDef → Storage → Storage
  unfolding rebuild_table
  rebuild_tables db [] s = s
  rebuild_tables db ((table_name, def) ∷ m) s =
      let tn = p.to_lowercase table_name in
      rebuild_tables db m (
        with_index_data s (
          rebuild_table tn def.columns (BTreeMap.values (table_or_empty s tn))
            (unwrap_or (HashMap.get db.indexes table_name) []) s.index_data))

  unfoldable pub rebuild_databases : List DatabaseDef → Storage → Storage
  unfolding rebuild_tables
  rebuild_databases [] s = s
  rebuild_databases (db ∷ dbs) s = rebuild_databases dbs (rebuild_tables db db.tables s)

  -- `rebuild_indexes`
  unfoldable pub rebuild_indexes : Executor → Executor
  unfolding rebuild_databases
  rebuild_indexes x =
      if x.catalog_poisoned
      then x
      else if x.storage_poisoned
      then x
      else record x { storage = rebuild_databases (HashMap.values x.catalog.databases) x.storage }
