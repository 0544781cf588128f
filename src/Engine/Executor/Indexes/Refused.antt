-- ===== src/Engine/Executor/Indexes/Refused.antt =====
-- A CREATE UNIQUE INDEX on rows with a key in common.
use srrdb.Prelude.{
  ℕ, ◌+◌, ◌<◌, ◌≡◌, refl, ap, subst, ◌∙◌, true, false, not, ◌&&◌, List, [], ◌∷◌, ◌++◌, arith, ok,
  err, failed, is_empty, any, nat_ord, nat_eq, list_eq, list_beq_iff, length, length-append,
  unwrap_or, none, Option-cases, Result-cases, Bool-cases, inl, inr,
}
use srrdb.Std.Text.{Text}
use srrdb.Std.HashMap
use srrdb.Std.HashMap.{HashMap}
use srrdb.Std.Platform.{Platform}
use srrdb.Sql.Statements.{CreateIndex}
use srrdb.Engine.Types.Order.{value_eq}
use srrdb.Engine.Types.Columns.{Column}
use srrdb.Engine.Index
use srrdb.Engine.Index.{IndexDef, IndexData, Key, lookup_eq}
use srrdb.Engine.Index.Entries.{lookup_eq-insert}
use srrdb.Engine.Storage.{Row, get_rows, normalize}
use srrdb.Engine.Query.{get_index_key, index_key}
use srrdb.Engine.Catalog
use srrdb.Engine.Catalog.{Catalog, TableDef, get_table, get_table_indexes, table_exists, is_named}
use srrdb.Engine.Catalog.Indexes.{get_table_indexes-create_index}
use srrdb.Engine.Wal.{Bincode, WalEntry, serialize}
use srrdb.Engine.State.{Executor, log_wal}
use srrdb.Engine.Executor.Change.Statements.{lock_catalog-free, lock_storage-free}
use srrdb.Engine.Executor.Indexes.Built.{ids_with, lookup_eq-new, lookup_eq-build_index}
use srrdb.Engine.Executor.Indexes.{
  index_def_of, duplicate_entry, build_index, fill_index, execute_create_index, with_index_data,
}

not_empty : (xs : List ℕ) → is_empty xs ≡ false → 0 < length xs
not_empty [] h = absurd (ground (arith, h))
not_empty (x ∷ xs) h = omega arith

get-remove_same :
    (m : HashMap Text IndexData) (k : Text) → HashMap.get (HashMap.remove m k) k ≡ none
get-remove_same m k = ground (arith, HashMap.get-remove m k k, list_beq_iff k k)

module _ ⦃p : Platform⦄ where
  -- the table stays where an index is made
  get_table-create_index :
      (c : Catalog) (db name : Text) (def : IndexDef)
      → get_table (Catalog.create_index c db def).0 db name ≡ get_table c db name
  unfolding Catalog.create_index get_table
  get_table-create_index c db name def =
      elim (Option-cases (HashMap.get c.databases (normalize db))) [
        | inl e ↦ ground (arith, e)
        | inr (d, e) ↦
            let tn = normalize def.table_name in
            let old : List IndexDef = unwrap_or (HashMap.get d.indexes tn) [] in
            ground (
              arith,
              e,
              HashMap.get-insert c.databases (normalize db) (normalize db)
                  (record d { indexes = HashMap.insert d.indexes tn old }),
              HashMap.get-insert c.databases (normalize db) (normalize db)
                  (record d { indexes = HashMap.insert d.indexes tn (old ++ def ∷ []) }),
              list_beq_iff (normalize db) (normalize db),
            )
      ]

  create_index-free :
      (c : Catalog) (db : Text) (index : IndexDef) (def : TableDef)
      → get_table c db index.table_name ≡ ok def
      → any (is_named index.name) (get_table_indexes c db index.table_name) ≡ false
      → (Catalog.create_index c db index).1 ≡ ok tt
  unfolding Catalog.create_index get_table get_table_indexes
  create_index-free c db index def g n =
      elim (Option-cases (HashMap.get c.databases (normalize db))) [
        | inl e ↦ absurd (ground (arith, g, e))
        | inr (d, e) ↦ ground (arith, g, n, e)
      ]

  -- the index is the last of its table
  listed :
      (c : Catalog) (db : Text) (index : IndexDef)
      → (Catalog.create_index c db index).1 ≡ ok tt
      → get_table_indexes (Catalog.create_index c db index).0 db index.table_name
        ≡ get_table_indexes c db index.table_name ++ index ∷ []
  listed c db index h = ground (
    arith,
    (get_table_indexes-create_index c db db index.table_name index h).2,
    list_beq_iff (normalize db) (normalize db),
    list_beq_iff (normalize index.table_name) (normalize index.table_name),
  )

  -- the key that the error names is the key of two rows, or was there before
  build_index-err :
      (def : IndexDef) (columns : List Column) (rows : List Row) (d : IndexData) (k : Key)
      → build_index def columns rows d ≡ err k
      → 1 < length (lookup_eq d k) + length (ids_with def columns rows k)
  unfolding build_index ids_with
  build_index-err def columns [] d k h = absurd (ground (arith, h))
  build_index-err def columns (row ∷ rows) d k h =
      let key = get_index_key row def columns in
      elim (Bool-cases (def.unique && not (is_empty (lookup_eq d key)))) [
        | inl t ↦
            let same : key ≡ k = ground (arith, h, t) in
            let there : is_empty (lookup_eq d key) ≡ false = ground (arith, t) in
            ground (
              arith,
              (list_beq_iff key k).1 same,
              not_empty (lookup_eq d k) (subst (λ j. is_empty (lookup_eq d j) ≡ false) same there),
            )
        | inr t ↦
            let rest : build_index def columns rows (Index.insert d key row.id) ≡ err k =
              ground (arith, h, t) in
            ground (
              arith,
              build_index-err def columns rows (Index.insert d key row.id) k rest,
              lookup_eq-insert d key k row.id,
              length-append (lookup_eq d k) (row.id ∷ []),
            )
      ]

module _ ⦃p : Platform⦄ ⦃b : Bincode⦄ where
  -- the state once the catalog and the log have the index
  abbrev noted : Executor → Text → IndexDef → Executor
  noted x db index =
      log_wal (record x { catalog = (Catalog.create_index x.catalog db index).0 })
        (WalEntry.create_index db index)

  execute_create_index-noted :
      (x : Executor) (db name : Text) (ci : CreateIndex) (def : TableDef)
      → x.catalog_poisoned ≡ false
      → is_empty (index_def_of ci name).columns ≡ false
      → get_table x.catalog db name ≡ ok def
      → any (is_named (index_def_of ci name).name) (get_table_indexes x.catalog db name) ≡ false
      → execute_create_index x db name ci
        ≡ fill_index (noted x db (index_def_of ci name)) name (index_def_of ci name) def
  unfolding execute_create_index log_wal
  execute_create_index-noted x db name ci def c i g n =
      rw (i, execute_create_index)
        (rw (lock_catalog-free x c) (
          rw (create_index-free x.catalog db (index_def_of ci name) def g n)
            (rw (get_table-create_index x.catalog db name (index_def_of ci name) ∙ g) refl)))

  fill_index-err :
      (x : Executor) (name : Text) (index : IndexDef) (def : TableDef) (k : Key)
      → x.storage_poisoned ≡ false
      → build_index index def.columns (get_rows x.storage name) (Index.new index.index_type) ≡ err k
      → fill_index x name index def ≡ (
        record x {
          storage =
              with_index_data x.storage
                (HashMap.remove x.storage.index_data (index_key (normalize name) index.name));
        },
        failed (duplicate_entry k index.name),
      )
  unfolding fill_index get_rows
  fill_index-err x name index def k s d = rw (lock_storage-free x s, fill_index) (rw d refl)

  -- A CREATE UNIQUE INDEX on a table in which two rows have a key in common fails with an error
  -- that names such a key. It changes no rows and leaves no data of the index, and yet the index
  -- is the last of its table in the catalog, and in the log. No lock may be poisoned, the index
  -- must have a column, the table must be there, and no index of it may have the name.
  pub execute_create_index-duplicate :
      (x : Executor) (db name : Text) (ci : CreateIndex) (def : TableDef) (k : Key)
      → x.catalog_poisoned ≡ false
      → x.storage_poisoned ≡ false
      → is_empty (index_def_of ci name).columns ≡ false
      → ci.unique ≡ true
      → get_table x.catalog db name ≡ ok def
      → any (is_named (index_def_of ci name).name) (get_table_indexes x.catalog db name) ≡ false
      → 1 < length (ids_with (index_def_of ci name) def.columns (get_rows x.storage name) k)
      → let index = index_def_of ci name in
        let y = execute_create_index x db name ci in
        (j : Key) × (y.1 ≡ failed (duplicate_entry j index.name))
        × (1 < length (ids_with index def.columns (get_rows x.storage name) j))
        × (y.0.storage.tables ≡ x.storage.tables)
        × (HashMap.get y.0.storage.index_data (index_key (normalize name) index.name) ≡ none)
        × (get_table_indexes y.0.catalog db name
            ≡ get_table_indexes x.catalog db name ++ index ∷ [])
        × (y.0.wal ≡ x.wal ++ serialize (WalEntry.create_index db index))
  unfolding log_wal
  execute_create_index-duplicate x db name ci def k c s i u g n two =
      let index = index_def_of ci name in
      let rows = get_rows x.storage name in
      let noted_step = execute_create_index-noted x db name ci def c i g n in
      elim (Result-cases (build_index index def.columns rows (Index.new index.index_type))) [
        | inr (d, e) ↦
            absurd (ground (arith, u, two, (lookup_eq-build_index index def.columns rows d k e).1))
        | inl (j, e) ↦
            let y = noted_step ∙ fill_index-err (noted x db index) name index def j s e in
            (
              j,
              ap (λ y. y.1) y,
              omega (
                arith,
                build_index-err index def.columns rows (Index.new index.index_type) j e,
                ap length (lookup_eq-new index.index_type j),
              ),
              ap (λ y. y.0.storage.tables) y,
              ap (λ y. HashMap.get y.0.storage.index_data (index_key (normalize name) index.name)) y
                  ∙ get-remove_same x.storage.index_data (index_key (normalize name) index.name),
              ap (λ y. get_table_indexes y.0.catalog db name) y
                  ∙ listed x.catalog db index (create_index-free x.catalog db index def g n),
              ap (λ y. y.0.wal) y,
            )
      ]
