-- ===== src/Engine/Executor/Show.antt =====
-- src/engine/executor.rs: SHOW, USE and DESCRIBE.
use srrdb.Prelude.{
  Option, none, some, [], ◌∷◌, ◌++◌, nat_eq, nat_ord, list_eq, if◌then◌else◌, map, ok, err, Outcome,
  done, failed, is_empty, is_some,
}
use srrdb.Std.Text.{Text, codes, join, list_cmp}
use srrdb.Std.HashMap
use srrdb.Std.Platform.{Platform}
use srrdb.Sql.Statements.{UseTarget}
use srrdb.Engine.Types.{null, text, DefaultExpr, to_string}
use srrdb.Engine.Types.Columns
use srrdb.Engine.Types.Columns.{Column, ColumnType}
use srrdb.Engine.Storage.{Row}
use srrdb.Engine.Catalog
use srrdb.Engine.Catalog.{DatabaseDef, TableDef, unknown_database}
use srrdb.Engine.Sort.{sort_by}
use srrdb.Engine.Names.{name_to_string, column_type_name}
use srrdb.Engine.ExecuteResult.{ExecuteResult}
use srrdb.Engine.State.{Executor, lock_catalog}

abbrev pub text_row : Text → Row
text_row name = record { id = 0; values = text name ∷ [] }

abbrev pub text_column : Text → Column
text_column name = Columns.new name [] ColumnType.var_char

module _ ⦃p : Platform⦄ where
  -- `execute_show_tables`
  unfoldable pub execute_show_tables : Executor → Text → Outcome ExecuteResult Text
  execute_show_tables x db = elim (lock_catalog x) [
    | err e ↦ failed e
    | ok c ↦ elim (Catalog.get_database c db) [
      | none ↦ failed (unknown_database db)
      | some d ↦ done (
          ExecuteResult.rows (text_column (codes "Tables_in_" ++ db) ∷ [])
            (map text_row (sort_by list_cmp (HashMap.keys d.tables))))
    ]
  ]

  -- `execute_show_databases`
  unfoldable pub execute_show_databases : Executor → Outcome ExecuteResult Text
  execute_show_databases x = elim (lock_catalog x) [
    | err e ↦ failed e
    | ok c ↦ done (
        ExecuteResult.rows (text_column (codes "Database") ∷ []) (
          map text_row
            (sort_by list_cmp (map (λ (d : DatabaseDef). d.name) (HashMap.values c.databases)))))
  ]

  abbrev pub switch_to : Executor → Text → Outcome ExecuteResult Text
  switch_to x db_name = elim (lock_catalog x) [
    | err e ↦ failed e
    | ok c ↦
        if Catalog.database_exists c db_name
        then done (ExecuteResult.database_changed db_name)
        else failed (unknown_database db_name)
  ]

  -- `execute_use`
  unfoldable pub execute_use : Executor → UseTarget → Outcome ExecuteResult Text
  execute_use x (UseTarget.database name) = switch_to x (name_to_string name)
  execute_use x (UseTarget.object name) = switch_to x (name_to_string name)
  execute_use x (UseTarget.other _) = failed (codes "USE only supports database switching")

  abbrev pub default_text : Option DefaultExpr → Text
  default_text none = []
  default_text (some (DefaultExpr.value v)) = to_string v
  default_text (some DefaultExpr.current_timestamp) = codes "CURRENT_TIMESTAMP"

  -- the row that describes a column
  unfoldable pub describe_column : Column → Row
  describe_column col =
      let default_str = default_text col.default_expr in
      let extra_parts =
        (if col.auto_increment then codes "auto_increment" ∷ [] else [])
        ++ (if is_some col.default_expr then codes "DEFAULT" ∷ [] else []) in
      record {
        id = 0;
        values =
            text col.name
            ∷ text (column_type_name col.col_type col.column_length)
            ∷ text (codes "YES")
            ∷ text (if col.auto_increment then codes "PRI" else [])
            ∷ (if is_empty default_str then null else text default_str)
            ∷ text (join (codes " ") extra_parts)
            ∷ [];
      }

  -- `execute_describe`
  unfoldable pub execute_describe : Executor → Text → Text → Outcome ExecuteResult Text
  unfolding describe_column
  execute_describe x db table_name = elim (lock_catalog x) [
    | err e ↦ failed e
    | ok c ↦ elim (Catalog.get_table c db table_name) [
      | err e ↦ failed e
      | ok def ↦ done (
          ExecuteResult.rows
            (map text_column (
              codes "Field"
              ∷ codes "Type"
              ∷ codes "Null"
              ∷ codes "Key"
              ∷ codes "Default"
              ∷ codes "Extra"
              ∷ []))
            (map describe_column def.columns))
    ]
  ]
