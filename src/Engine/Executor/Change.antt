-- ===== src/Engine/Executor/Change.antt =====
-- src/engine/executor.rs: `execute_delete` and `execute_update`.
pub mod Indexed
pub mod Rows
pub mod Updated
pub mod Order
pub mod Statements
pub mod Stored
use srrdb.Prelude.{
  ℕ, Bool, true, false, Option, none, some, List, [], ◌∷◌, nat_eq, nat_ord, list_eq, map, Result,
  ok, err, done, failed, panicked, length, set,
}
use srrdb.Std.Text.{Text, codes}
use srrdb.Std.BTreeMap
use srrdb.Std.Platform.{Platform}
use srrdb.Sql.Ast.{Expr}
use srrdb.Sql.Statements.{Assignment, AssignmentTarget}
use srrdb.Engine.Types.{Value}
use srrdb.Engine.Types.Columns.{Column}
use srrdb.Engine.Index.{IndexDef}
use srrdb.Engine.Storage.{Row, Storage, Table, get_table_mut, set_table, table_or_empty}
use srrdb.Engine.Catalog.{get_table, get_table_indexes, unknown_table}
use srrdb.Engine.Eval.{selects, sql_expr_to_value, column_position}
use srrdb.Engine.Names.{name_to_string}
use srrdb.Engine.Wal.{Bincode, WalEntry}
use srrdb.Engine.ExecuteResult.{ExecuteResult}
use srrdb.Engine.State.{
  Executor, Step, lock_catalog, lock_storage, log_wal, save_table, insert_rows_into_indexes,
  delete_rows_from_indexes,
}
use srrdb.Engine.Executor.Insert.{unknown_column}

module _ ⦃p : Platform⦄ where
  -- whether the statement takes a row; `none` is a panic in WHERE
  abbrev pub takes : Option Expr → List Column → Row → Option Bool
  takes none columns row = some true
  takes (some e) columns row = selects e columns row.values

  -- the rows of the table that the statement takes, with the ids of their places
  unfoldable pub matching : Option Expr → List Column → Table → Option (List Row)
  matching selection columns [] = some []
  matching selection columns ((id, row) ∷ t) =
      let rest = matching selection columns t in
      elim (takes selection columns row) [
        | none ↦ none
        | some false ↦ rest
        | some true ↦ elim rest [
          | none ↦ none
          | some rows ↦ some (record { id = id; values = row.values } ∷ rows)
        ]
      ]

  unfoldable pub remove_ids : List Row → Table → Table
  remove_ids [] t = t
  remove_ids (row ∷ rows) t = remove_ids rows (BTreeMap.remove t row.id)

  -- the new values of a row
  unfoldable pub assign : List (ℕ × Expr) → List Value → List Value
  assign [] values = values
  assign ((idx, e) ∷ pairs) values = assign pairs (set values idx (sql_expr_to_value e))

  -- `row.values.clone_from(new_vals)` for each new row that the table has
  unfoldable pub update_rows : List Row → Table → Table
  update_rows [] t = t
  update_rows (row ∷ rows) t = elim (BTreeMap.get t row.id) [
    | none ↦ update_rows rows t
    | some old ↦ update_rows rows (BTreeMap.insert t row.id (record old { values = row.values }))
  ]

-- the columns and expressions of the assignments
unfoldable pub assign_indices : List Column → List Assignment → Result (List (ℕ × Expr)) Text
assign_indices columns [] = ok []
assign_indices columns (a ∷ assignments) = elim a.target [
  | AssignmentTarget.tuple _ ↦ err (codes "Tuple assignment not supported")
  | AssignmentTarget.column_name name ↦ elim (column_position columns (name_to_string name)) [
    | none ↦ err (unknown_column (name_to_string name))
    | some idx ↦ elim (assign_indices columns assignments) [
      | err e ↦ err e
      | ok pairs ↦ ok ((idx, a.value) ∷ pairs)
    ]
  ]
]

module _ ⦃p : Platform⦄ ⦃b : Bincode⦄ where
  -- the snapshot of the table in the log, if a row changed
  unfoldable pub log_snapshot : Executor → Text → ℕ → Executor
  log_snapshot x table_name changed =
      let remaining = BTreeMap.values (table_or_empty x.storage (p.to_lowercase table_name)) in
      elim changed [
        | ℕ.zero ↦ x
        | ℕ.suc _ ↦ log_wal x (WalEntry.table_snapshot table_name remaining)
      ]

  -- the storage without the rows
  unfoldable pub delete_rows :
      Storage → Text → List IndexDef → List Column → Table → List Row → Storage
  unfolding set_table
  delete_rows s table_name defs columns t rows =
      record (set_table s table_name (remove_ids rows t)) {
        index_data = delete_rows_from_indexes s.index_data table_name defs columns rows;
      }

  -- `execute_delete`. A panic in WHERE poisons the storage, which is locked.
  unfoldable pub execute_delete : Executor → Text → Text → Option Expr → Step
  execute_delete x db table_name selection = elim (lock_catalog x) [
    | err e ↦ (x, failed e)
    | ok c ↦ elim (get_table c db table_name) [
      | err e ↦ (x, failed e)
      | ok def ↦ elim (lock_storage x) [
        | err e ↦ (x, failed e)
        | ok s ↦ elim (get_table_mut s table_name) [
          | none ↦ (x, failed (unknown_table table_name))
          | some t ↦ elim (matching selection def.columns t) [
            | none ↦ (record x { storage_poisoned = true }, panicked)
            | some rows ↦
                let defs = get_table_indexes c db table_name in
                let s' = delete_rows s table_name defs def.columns t rows in
                let x1 = log_snapshot (record x { storage = s' }) table_name (length rows) in
                (save_table x1 table_name, done (ExecuteResult.affected (length rows) 0))
          ]
        ]
      ]
    ]
  ]

  -- the storage with the rows changed: old index entries go, new ones come
  unfoldable pub change_rows :
      Storage → Text → List IndexDef → List Column → Table → List Row → List (ℕ × Expr) → Storage
  unfolding set_table
  change_rows s table_name defs columns t rows pairs =
      let new_rows = map (λ (r : Row). record r { values = assign pairs r.values }) rows in
      record (set_table s table_name (update_rows new_rows t)) {
        index_data =
            insert_rows_into_indexes
              (delete_rows_from_indexes s.index_data table_name defs columns rows) table_name defs
              columns new_rows;
      }

  -- `execute_update`
  unfoldable pub execute_update : Executor → Text → Text → List Assignment → Option Expr → Step
  execute_update x db table_name assignments selection = elim (lock_catalog x) [
    | err e ↦ (x, failed e)
    | ok c ↦ elim (get_table c db table_name) [
      | err e ↦ (x, failed e)
      | ok def ↦ elim (assign_indices def.columns assignments) [
        | err e ↦ (x, failed e)
        | ok pairs ↦ elim (lock_storage x) [
          | err e ↦ (x, failed e)
          | ok s ↦ elim (get_table_mut s table_name) [
            | none ↦ (x, failed (unknown_table table_name))
            | some t ↦ elim (matching selection def.columns t) [
              | none ↦ (record x { storage_poisoned = true }, panicked)
              | some rows ↦
                  let defs = get_table_indexes c db table_name in
                  let s' = change_rows s table_name defs def.columns t rows pairs in
                  let x1 = log_snapshot (record x { storage = s' }) table_name (length rows) in
                  (save_table x1 table_name, done (ExecuteResult.affected (length rows) 0))
            ]
          ]
        ]
      ]
    ]
  ]
