-- ===== src/Engine/Executor/Select.antt =====
-- src/engine/executor.rs: `execute_query`. Nothing of the state changes; the rows are filtered after
-- the locks are given back, so a panic poisons none.
pub mod Indexed
use srrdb.Prelude.{
  ℕ, true, false, Option, none, some, List, [], ◌∷◌, nat_eq, nat_ord, list_eq, map, ok, err,
  Outcome, done, failed, panicked, take, drop, filter_map, flat_map,
}
use srrdb.Std.Text.{Text, codes}
use srrdb.Std.BTreeMap
use srrdb.Std.Platform.{Platform}
use srrdb.Sql.Ast.{Expr, SelectItem}
use srrdb.Sql.Statements.{Query, SetExpr, OrderByKind, TableFactor}
use srrdb.Engine.Types.Columns.{Column}
use srrdb.Engine.Index.{IndexDef}
use srrdb.Engine.Storage.{Row, Storage, get_rows, table_or_empty}
use srrdb.Engine.Catalog.{get_table, get_table_indexes}
use srrdb.Engine.Eval.{selects}
use srrdb.Engine.Query.{
  item_columns, project_row, sort_rows, limit_value, offset_value, try_index_lookup,
}
use srrdb.Engine.Names.{table_factor_name}
use srrdb.Engine.ExecuteResult.{ExecuteResult}
use srrdb.Engine.State.{Executor, lock_catalog, lock_storage}

module _ ⦃p : Platform⦄ where
  -- the rows that satisfy the condition; `none` is a panic
  unfoldable pub retain : Expr → List Column → List Row → Option (List Row)
  retain e columns [] = some []
  retain e columns (row ∷ rows) =
      let rest = retain e columns rows in
      elim (selects e columns row.values) [
        | none ↦ none
        | some false ↦ rest
        | some true ↦ elim rest [ none ↦ none | some r ↦ some (row ∷ r) ]
      ]

  -- the rows with the given ids, in the order of the ids
  unfoldable pub rows_by_id : Storage → Text → List ℕ → List Row
  rows_by_id s table_name ids =
      filter_map (λ id. BTreeMap.get (table_or_empty s (p.to_lowercase table_name)) id) ids

  -- the rows of the table that satisfy the selection, by an index where one serves
  unfoldable pub select_rows :
      Storage → Text → List Column → List IndexDef → Option Expr → Option (List Row)
  select_rows s table_name columns defs none = some (get_rows s table_name)
  select_rows s table_name columns defs (some e) = elim (try_index_lookup s table_name e defs) [
    | some ids ↦ retain e columns (rows_by_id s table_name ids)
    | none ↦ retain e columns (get_rows s table_name)
  ]

  -- ORDER BY; `none` is a panic
  abbrev pub ordered : Option OrderByKind → List Column → List Row → Option (List Row)
  ordered (some (OrderByKind.expressions exprs)) columns rows = sort_rows rows exprs columns
  ordered _ columns rows = some rows

  -- OFFSET, then LIMIT
  abbrev pub limited : Option Expr → Option Expr → List Row → List Row
  limited offset limit rows =
      let rest = drop (elim offset [ none ↦ 0 | some e ↦ offset_value e ]) rows in
      elim limit [ none ↦ rest | some e ↦ take (limit_value e) rest ]

  abbrev pub projected : List SelectItem → List Column → List Row → List Row
  projected projection columns rows =
      map (λ (r : Row). record { id = 0; values = project_row projection columns r.values }) rows

  -- a SELECT from its first table
  unfoldable pub select_from :
      Executor
      → Text
      → Query
      → List SelectItem
      → TableFactor
      → Option Expr
      → Outcome ExecuteResult Text
  select_from x db query projection factor selection =
      let table_name = table_factor_name factor in
      elim (lock_catalog x) [
        | err e ↦ failed e
        | ok c ↦ elim (get_table c db table_name) [
          | err e ↦ failed e
          | ok def ↦ elim (lock_storage x) [
            | err e ↦ failed e
            | ok s ↦
                elim (select_rows s table_name def.columns (get_table_indexes c db table_name)
                  selection) [
                    | none ↦ panicked
                    | some rows ↦ elim (ordered query.order_by def.columns rows) [
                      | none ↦ panicked
                      | some sorted ↦ done (
                          ExecuteResult.rows
                            (flat_map (item_columns table_name def.columns) projection)
                            (limited query.offset query.limit
                              (projected projection def.columns sorted)))
                    ]
                  ]
          ]
        ]
      ]

  -- `execute_query`
  unfoldable pub execute_query : Executor → Text → Query → Outcome ExecuteResult Text
  execute_query x db query = elim query.body [
    | SetExpr.select projection [] selection ↦ done (ExecuteResult.rows [] [])
    | SetExpr.select projection (factor ∷ _) selection ↦
        select_from x db query projection factor selection
    | _ ↦ failed (codes "Unsupported query type")
  ]
