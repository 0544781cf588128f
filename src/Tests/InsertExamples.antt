-- ===== src/Tests/InsertExamples.antt =====
-- The theorem on an INSERT of a short row, on a table with an AUTO_INCREMENT column.
use srrdb.Prelude.{◌≡◌, refl, true, none, some, [], ◌∷◌, list_eq, nat_eq, panicked}
use srrdb.Std.Text.{codes}
use srrdb.Std.HashMap
use srrdb.Sql.Ast.{Expr, SqlValue}
use srrdb.Sql.Statements.{SetExpr, Query}
use srrdb.Engine.Types.{null}
use srrdb.Engine.Types.Columns.{Column, ColumnType}
use srrdb.Engine.Catalog.{TableDef, get_table, next_row_id}
use srrdb.Engine.Eval.{sql_expr_to_value}
use srrdb.Engine.State.{Executor}
use srrdb.Engine.Executor.Insert.{row_of, rows_of, execute_insert}
use srrdb.Engine.Executor.Insert.Short.{execute_insert-short}
use srrdb.Tests.Ascii.{ascii}
use srrdb.Tests.Serializer.{serializer}
use srrdb.Tests.Data.{db, users, name_column, catalog, executor}

abbrev id_column : Column
id_column = record name_column {
  name = codes "id";
  col_type = ColumnType.long;
  auto_increment = true;
}

abbrev numbered_def : TableDef
numbered_def = record { name = users; columns = id_column ∷ name_column ∷ [] }

abbrev numbered_users : Executor
numbered_users = record executor {
  catalog = record catalog {
    databases =
        (db, record { name = db; tables = (users, numbered_def) ∷ []; indexes = (users, []) ∷ [] })
        ∷ [];
  };
}

-- VALUES (NULL, NULL), (NULL)
abbrev one_short : Query
one_short = record {
  body = SetExpr.values (
      (Expr.value SqlValue.null ∷ Expr.value SqlValue.null ∷ [])
      ∷ (Expr.value SqlValue.null ∷ [])
      ∷ []);
  order_by = none;
  offset = none;
  limit = none;
}

-- both rows take an id
short_example : execute_insert 0 numbered_users db users [] (some one_short) ≡ (
  record numbered_users {
    catalog = record numbered_users.catalog { sequences = (users, 3) ∷ [] };
    catalog_poisoned = true;
  },
  panicked,
)
unfolding get_table HashMap.get rows_of row_of sql_expr_to_value next_row_id HashMap.insert
short_example =
    execute_insert-short 0 numbered_users db users [] one_short
      ((Expr.value SqlValue.null ∷ Expr.value SqlValue.null ∷ [])
        ∷ (Expr.value SqlValue.null ∷ [])
        ∷ [])
      numbered_def
      (record { id = 0; values = null ∷ null ∷ [] } ∷ record { id = 0; values = null ∷ [] } ∷ [])
      refl refl refl refl refl
