-- ===== src/Engine/Executor/Change/Statements.antt =====
-- DELETE and UPDATE as whole statements.
use srrdb.Prelude.{
  ℕ, zero, suc, ◌≡◌, refl, ◌∙◌, ap, false, Option, none, some, List, arith, ◌==◌, nat_eq, nat_ord,
  list_eq, list_beq_iff, if◌then◌else◌, map, ok, done, length,
}
use srrdb.Std.Text.{Text}
use srrdb.Std.HashMap
use srrdb.Std.BTreeMap.Sorted.{IsSorted}
use srrdb.Std.Platform.{Platform}
use srrdb.Sql.Ast.{Expr}
use srrdb.Sql.Statements.{Assignment}
use srrdb.Engine.Types.Columns.{Column}
use srrdb.Engine.Index.{IndexDef}
use srrdb.Engine.Storage.{Row, Table, Storage, get_row, get_table_mut, set_table, normalize}
use srrdb.Engine.Catalog.{TableDef, get_table, get_table_indexes}
use srrdb.Engine.Wal.{Bincode}
use srrdb.Engine.ExecuteResult.{ExecuteResult}
use srrdb.Engine.State.{Executor, lock_catalog, lock_storage, log_wal, save_table}
use srrdb.Engine.Executor.Change.{
  matching, remove_ids, delete_rows, log_snapshot, execute_delete, change_rows, update_rows,
  assign_indices, execute_update,
}
use srrdb.Engine.Executor.Change.Updated.{assigned, update_taken, update_rows-matching}
use srrdb.Engine.Executor.Change.Rows.{is_taken, remove_ids-matching}

pub lock_catalog-free : (x : Executor) → x.catalog_poisoned ≡ false → lock_catalog x ≡ ok x.catalog
unfolding lock_catalog
lock_catalog-free x h = rw h refl

pub lock_storage-free : (x : Executor) → x.storage_poisoned ≡ false → lock_storage x ≡ ok x.storage
unfolding lock_storage
lock_storage-free x h = rw h refl

module _ ⦃p : Platform⦄ ⦃b : Bincode⦄ where
  pub save_table-wal : (x : Executor) (name : Text) → (save_table x name).wal ≡ x.wal
  unfolding save_table
  save_table-wal x name = ground arith

  pub save_table-storage : (x : Executor) (name : Text) → (save_table x name).storage ≡ x.storage
  unfolding save_table
  save_table-storage x name = ground arith

  pub log_snapshot-storage :
      (x : Executor) (name : Text) (n : ℕ) → (log_snapshot x name n).storage ≡ x.storage
  unfolding log_snapshot log_wal
  log_snapshot-storage x name zero = refl
  log_snapshot-storage x name (suc n) = refl

  delete_rows-get_row :
      (s : Storage) (name name' : Text) (defs : List IndexDef) (columns : List Column) (t : Table)
      (rows : List Row) (selection : Option Expr) (i : ℕ)
      → get_table_mut s name ≡ some t
      → matching selection columns t ≡ some rows
      → IsSorted t
      → get_row (delete_rows s name defs columns t rows) name' i ≡ (
          if normalize name == normalize name'
          then (if is_taken selection columns (get_row s name' i) then none else get_row s name' i)
          else get_row s name' i)
  unfolding delete_rows get_row get_table_mut set_table
  delete_rows-get_row s name name' defs columns t rows selection i g m o = ground (
    arith,
    g,
    HashMap.get-insert s.tables (normalize name) (normalize name') (remove_ids rows t),
    remove_ids-matching selection columns t rows i m o,
    list_beq_iff (normalize name) (normalize name'),
  )

  execute_delete-done :
      (x : Executor) (db name : Text) (selection : Option Expr) (def : TableDef) (t : Table)
      (rows : List Row)
      → x.catalog_poisoned ≡ false
      → x.storage_poisoned ≡ false
      → get_table x.catalog db name ≡ ok def
      → get_table_mut x.storage name ≡ some t
      → matching selection def.columns t ≡ some rows
      → execute_delete x db name selection ≡ (
        save_table
            (log_snapshot
              (record x {
                storage =
                    delete_rows x.storage name
                      (get_table_indexes x.catalog db name)
                      def.columns
                      t
                      rows;
              })
              name
              (length rows))
            name,
        done (ExecuteResult.affected (length rows) 0),
      )
  unfolding execute_delete
  execute_delete-done x db name selection def t rows c s d g m =
      rw (lock_catalog-free x c, execute_delete)
        (rw d (rw (lock_storage-free x s) (rw g (rw m refl))))

  -- A DELETE whose locks, database and table are there, and whose condition panics on no row,
  -- succeeds, counts the rows that it takes, and removes exactly the rows that its condition takes
  -- from its table: no other row of that table and no other table changes. The table must be in
  -- the order of its ids.
  pub execute_delete-get_row :
      (x : Executor) (db name name' : Text) (selection : Option Expr) (def : TableDef) (t : Table)
      (rows : List Row) (i : ℕ)
      → x.catalog_poisoned ≡ false
      → x.storage_poisoned ≡ false
      → get_table x.catalog db name ≡ ok def
      → get_table_mut x.storage name ≡ some t
      → matching selection def.columns t ≡ some rows
      → IsSorted t
      → ((execute_delete x db name selection).1 ≡ done (ExecuteResult.affected (length rows) 0))
        × (get_row (execute_delete x db name selection).0.storage name' i ≡ (
            if normalize name == normalize name'
            then (if is_taken selection def.columns (get_row x.storage name' i)
                then none
                else get_row x.storage name' i)
            else get_row x.storage name' i))
  execute_delete-get_row x db name name' selection def t rows i c s d g m o =
      let s' =
        delete_rows x.storage name (get_table_indexes x.catalog db name) def.columns t rows in
      rw (execute_delete-done x db name selection def t rows c s d g m) (
        refl,
        ap (λ q. get_row q name' i)
              (save_table-storage _ name
                ∙ log_snapshot-storage (record x { storage = s' }) name (length rows))
            ∙ delete_rows-get_row x.storage name name' _ def.columns t rows selection i g m o,
      )

  change_rows-get_row :
      (s : Storage) (name name' : Text) (defs : List IndexDef) (columns : List Column) (t : Table)
      (rows : List Row) (pairs : List (ℕ × Expr)) (selection : Option Expr) (i : ℕ)
      → get_table_mut s name ≡ some t
      → matching selection columns t ≡ some rows
      → IsSorted t
      → get_row (change_rows s name defs columns t rows pairs) name' i ≡ (
          if normalize name == normalize name'
          then update_taken selection columns pairs (get_row s name' i)
          else get_row s name' i)
  unfolding change_rows get_row get_table_mut set_table
  change_rows-get_row s name name' defs columns t rows pairs selection i g m o = ground (
    arith,
    g,
    HashMap.get-insert s.tables (normalize name) (normalize name')
        (update_rows (map (assigned pairs) rows) t),
    update_rows-matching selection columns pairs t rows i m o,
    list_beq_iff (normalize name) (normalize name'),
  )

  execute_update-done :
      (x : Executor) (db name : Text) (assignments : List Assignment) (selection : Option Expr)
      (def : TableDef) (pairs : List (ℕ × Expr)) (t : Table) (rows : List Row)
      → x.catalog_poisoned ≡ false
      → x.storage_poisoned ≡ false
      → get_table x.catalog db name ≡ ok def
      → assign_indices def.columns assignments ≡ ok pairs
      → get_table_mut x.storage name ≡ some t
      → matching selection def.columns t ≡ some rows
      → execute_update x db name assignments selection ≡ (
        save_table
            (log_snapshot
              (record x {
                storage =
                    change_rows x.storage name
                      (get_table_indexes x.catalog db name)
                      def.columns
                      t
                      rows
                      pairs;
              })
              name
              (length rows))
            name,
        done (ExecuteResult.affected (length rows) 0),
      )
  unfolding execute_update
  execute_update-done x db name assignments selection def pairs t rows c s d a g m =
      rw (lock_catalog-free x c, execute_update)
        (rw d (rw a (rw (lock_storage-free x s) (rw g (rw m refl)))))

  -- An UPDATE whose locks, database, table and assigned columns are there, and whose condition
  -- panics on no row, succeeds, counts the rows that it takes, and gives exactly the rows of its
  -- table that its condition takes their assigned values: no other row and no other table
  -- changes. The table must be in the order of its ids.
  pub execute_update-get_row :
      (x : Executor) (db name name' : Text) (assignments : List Assignment)
      (selection : Option Expr) (def : TableDef) (pairs : List (ℕ × Expr)) (t : Table)
      (rows : List Row) (i : ℕ)
      → x.catalog_poisoned ≡ false
      → x.storage_poisoned ≡ false
      → get_table x.catalog db name ≡ ok def
      → assign_indices def.columns assignments ≡ ok pairs
      → get_table_mut x.storage name ≡ some t
      → matching selection def.columns t ≡ some rows
      → IsSorted t
      → ((execute_update x db name assignments selection).1
          ≡ done (ExecuteResult.affected (length rows) 0))
        × (get_row (execute_update x db name assignments selection).0.storage name' i ≡ (
            if normalize name == normalize name'
            then update_taken selection def.columns pairs (get_row x.storage name' i)
            else get_row x.storage name' i))
  execute_update-get_row x db name name' assignments selection def pairs t rows i c s d a g m o =
      let s' =
        change_rows x.storage name (get_table_indexes x.catalog db name) def.columns t rows pairs in
      rw (execute_update-done x db name assignments selection def pairs t rows c s d a g m) (
        refl,
        ap (λ q. get_row q name' i)
              (save_table-storage _ name
                ∙ log_snapshot-storage (record x { storage = s' }) name (length rows))
            ∙ change_rows-get_row x.storage name name' _ def.columns t rows pairs selection i g m o,
      )
