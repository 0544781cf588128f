-- ===== src/Engine/Executor/Insert.antt =====
-- src/engine/executor.rs: `execute_insert`.
pub mod Given
pub mod Short
use srrdb.Prelude.{
  ℕ, suc, ◌-◌, ◌^◌, true, ◌||◌, Option, none, some, List, [], ◌∷◌, ◌++◌, nat_eq, nat_ord, list_eq,
  if◌then◌else◌, map, Result, ok, err, done, failed, panicked, length, replicate, set, get_elem?,
  is_empty, ltb,
}
use srrdb.Prelude.Int.{ℤ, pos, negsuc}
use srrdb.Std.Text.{Text, codes}
use srrdb.Std.HashMap.{HashMap}
use srrdb.Std.BTreeMap
use srrdb.Std.Platform.{Platform}
use srrdb.Sql.Ast.{Expr}
use srrdb.Sql.Statements.{SetExpr, Query}
use srrdb.Engine.Types.{Value, null, int}
use srrdb.Engine.Types.Columns.{Column}
use srrdb.Engine.Index.{IndexDef, IndexData}
use srrdb.Engine.Storage.{Row, Storage, insert_rows, table_or_empty}
use srrdb.Engine.Catalog.{Catalog, TableDef, get_table, next_row_id, get_table_indexes}
use srrdb.Engine.Eval.{sql_expr_to_value, column_position, is_null_value}
use srrdb.Engine.Names.{eval_default_expr}
use srrdb.Engine.Wal.{Bincode, WalEntry}
use srrdb.Engine.ExecuteResult.{ExecuteResult}
use srrdb.Engine.State.{
  Executor, Step, lock_catalog, lock_storage, log_wal, save_table, insert_into_indexes_raw,
}

abbrev pub unknown_column : Text → Text
unknown_column name = codes "Unknown column: " ++ name

-- the values in the named columns; a name without a value is passed over, unchecked
unfoldable pub map_columns :
    List Column → List Text → List Value → List Value → Result (List Value) Text
map_columns table_columns [] vals mapped = ok mapped
map_columns table_columns (name ∷ names) [] mapped = ok mapped
map_columns table_columns (name ∷ names) (v ∷ vals) mapped =
    elim (column_position table_columns name) [
      | none ↦ err (unknown_column name)
      | some i ↦ map_columns table_columns names vals (set mapped i v)
    ]

-- `id as i64`
abbrev pub as_i64 : ℕ → ℤ
as_i64 n = if ltb n (2 ^ 63) then pos n else negsuc (2 ^ 64 - 1 - n)

-- what filling the defaults changes: the values, the catalog's sequences, the last id
pub record Filled : Type 0 where
  pub values : List Value
  pub catalog : Catalog
  pub last_insert_id : ℕ

module _ ⦃p : Platform⦄ where
  -- one row of VALUES
  unfoldable pub row_of : List Column → List Text → List Expr → Result Row Text
  row_of table_columns columns exprs =
      let vals = map sql_expr_to_value exprs in
      if is_empty columns
      then ok (record { id = 0; values = vals })
      else elim (map_columns table_columns columns vals (replicate (length table_columns) null)) [
        | err e ↦ err e
        | ok mapped ↦ ok (record { id = 0; values = mapped })
      ]

  unfoldable pub rows_of : List Column → List Text → List (List Expr) → Result (List Row) Text
  rows_of table_columns columns [] = ok []
  rows_of table_columns columns (exprs ∷ more) = elim (row_of table_columns columns exprs) [
    | err e ↦ err e
    | ok row ↦ elim (rows_of table_columns columns more) [
      | err e ↦ err e
      | ok rows ↦ ok (row ∷ rows)
    ]
  ]

  -- a NULL in a column is replaced by the next id or by the default
  unfoldable pub fill_value : ℕ → Text → ℕ → Column → Filled → Filled
  fill_value now table_name idx col f =
      let next = next_row_id f.catalog table_name 1 in
      if col.auto_increment
      then record {
        values = set f.values idx (int (as_i64 next.1));
        catalog = next.0;
        last_insert_id = next.1;
      }
      else elim col.default_expr [
        | none ↦ f
        | some e ↦ record f { values = set f.values idx (eval_default_expr now e) }
      ]

  -- the columns from position `idx`; `err` is the panic of `row.values[idx]` past the row's end,
  -- with the catalog as it is by then
  unfoldable pub fill_row : ℕ → Text → ℕ → List Column → Filled → Result Filled Catalog
  fill_row now table_name idx [] f = ok f
  fill_row now table_name idx (col ∷ cols) f = elim (get_elem? f.values idx) [
    | none ↦ err f.catalog
    | some v ↦
        fill_row now table_name (suc idx) cols
          (if is_null_value v then fill_value now table_name idx col f else f)
  ]

  -- all rows, with the catalog and the last id; `err` is the panic, with the catalog
  unfoldable pub fill_rows :
      ℕ → Text → List Column → List Row → Catalog → ℕ → Result (List Row × Catalog × ℕ) Catalog
  fill_rows now table_name cols [] c last = ok ([], c, last)
  fill_rows now table_name cols (row ∷ rows) c last =
      elim (fill_row now table_name 0 cols
        (record { values = row.values; catalog = c; last_insert_id = last })) [
          | err c' ↦ err c'
          | ok f ↦ elim (fill_rows now table_name cols rows f.catalog f.last_insert_id) [
            | err c' ↦ err c'
            | ok (rest, c', last') ↦ ok (record row { values = f.values } ∷ rest, c', last')
          ]
        ]

  -- the index entries of the rows with the given ids, as the table has them
  unfoldable pub index_inserted :
      Storage
      → Text
      → List IndexDef
      → List Column
      → List ℕ
      → HashMap Text IndexData
      → HashMap Text IndexData
  index_inserted s table_name defs columns [] m = m
  index_inserted s table_name defs columns (id ∷ ids) m =
      let found = BTreeMap.get (table_or_empty s (p.to_lowercase table_name)) id in
      let values : List Value = elim found [ none ↦ [] | some r ↦ r.values ] in
      index_inserted s table_name defs columns ids
        (insert_into_indexes_raw m table_name defs columns (record { id = id; values = values }))

module _ ⦃p : Platform⦄ ⦃b : Bincode⦄ where
  -- the second half: the log, the storage, the files, then the indexes
  unfoldable pub store_rows : Executor → Text → Text → TableDef → List Row → ℕ → Step
  store_rows x db table_name def rows last =
      let x1 = log_wal x (WalEntry.insert_rows table_name rows) in
      elim (lock_storage x1) [
        | err e ↦ (x1, failed e)
        | ok s ↦
            let (s', ids) = insert_rows s table_name rows in
            let x2 = save_table (record x1 { storage = s' }) table_name in
            let defs = get_table_indexes x2.catalog db table_name in
            let result = ExecuteResult.affected (length rows) last in
            if is_empty defs || is_empty ids then (x2, done result) else (
              record x2 {
                storage = record s' {
                  index_data = index_inserted s' table_name defs def.columns ids s'.index_data;
                };
              },
              done result,
            )
      ]

  -- `execute_insert` at the time `now`. A panic while the catalog is locked poisons it.
  unfoldable pub execute_insert : ℕ → Executor → Text → Text → List Text → Option Query → Step
  execute_insert now x db table_name columns source = elim (lock_catalog x) [
    | err e ↦ (x, failed e)
    | ok c ↦ elim (get_table c db table_name) [
      | err e ↦ (x, failed e)
      | ok def ↦ elim source [
        | none ↦ (x, failed (codes "INSERT missing source"))
        | some query ↦ elim query.body [
          | SetExpr.values exprs ↦ elim (rows_of def.columns columns exprs) [
            | err e ↦ (x, failed e)
            | ok rows ↦ elim (fill_rows now table_name def.columns rows c 0) [
              | err c' ↦ (record x { catalog = c'; catalog_poisoned = true }, panicked)
              | ok (filled, c', last) ↦
                  store_rows (record x { catalog = c' }) db table_name def filled last
            ]
          ]
          | _ ↦ (x, failed (codes "INSERT only supports VALUES"))
        ]
      ]
    ]
  ]
