-- ===== src/Engine/Names.antt =====
-- src/engine/executor.rs: names, column types of SQL types, defaults.
use srrdb.Prelude.{
  ℕ, Bool, true, false, ◌||◌, Option, none, some, List, [], ◌∷◌, ◌++◌, nat_eq, list_eq,
  if◌then◌else◌, any,
}
use srrdb.Std.Text.{Text, codes, join, eq_ignore_ascii_case}
use srrdb.Std.Decimal.{nat_to_string}
use srrdb.Std.Platform.{Platform}
use srrdb.Sql.Ast.{Expr}
use srrdb.Sql.Statements.{
  ObjectName, TableFactor, TableObject, DataType, Token, ColumnOption, ColumnDef,
}
use srrdb.Engine.Types.{DefaultExpr, Value}
use srrdb.Engine.Types.Columns
use srrdb.Engine.Types.Columns.{Column, ColumnType}
use srrdb.Engine.Timestamp.{format_timestamp}
use srrdb.Engine.Eval.{sql_expr_to_value}

-- `name_to_string`
unfoldable pub name_to_string : ObjectName → Text
name_to_string name = join (codes ".") name

-- `table_factor_name`
unfoldable pub table_factor_name : TableFactor → Text
unfolding name_to_string
table_factor_name (TableFactor.table name) = name_to_string name
table_factor_name (TableFactor.other _) = []

-- `table_object_name`
unfoldable pub table_object_name : TableObject → Text
unfolding name_to_string
table_object_name (TableObject.table_name name) = name_to_string name
table_object_name (TableObject.other _) = []

-- the name of a column type
unfoldable pub base_name : ColumnType → Text
base_name ColumnType.decimal = codes "decimal"
base_name ColumnType.tiny = codes "tinyint"
base_name ColumnType.short = codes "smallint"
base_name ColumnType.long = codes "int"
base_name ColumnType.float = codes "float"
base_name ColumnType.double = codes "double"
base_name ColumnType.null = codes "null"
base_name ColumnType.timestamp = codes "timestamp"
base_name ColumnType.long_long = codes "bigint"
base_name ColumnType.int24 = codes "mediumint"
base_name ColumnType.date = codes "date"
base_name ColumnType.time = codes "time"
base_name ColumnType.date_time = codes "datetime"
base_name ColumnType.year = codes "year"
base_name ColumnType.var_char = codes "varchar"
base_name ColumnType.bit = codes "bit"
base_name ColumnType.json = codes "json"
base_name ColumnType.new_decimal = codes "decimal"
base_name ColumnType.enum = codes "enum"
base_name ColumnType.set = codes "set"
base_name ColumnType.tiny_blob = codes "tinyblob"
base_name ColumnType.medium_blob = codes "mediumblob"
base_name ColumnType.long_blob = codes "longblob"
base_name ColumnType.blob = codes "text"
base_name ColumnType.var_string = codes "varchar"
base_name ColumnType.string = codes "char"
base_name ColumnType.geometry = codes "geometry"

abbrev pub has_length : ColumnType → Bool
has_length ColumnType.var_char = true
has_length ColumnType.var_string = true
has_length ColumnType.string = true
has_length _ = false

-- `column_type_name`
unfoldable pub column_type_name : ColumnType → ℕ → Text
unfolding base_name
column_type_name ct len =
    if has_length ct
    then base_name ct ++ (codes "(" ++ (nat_to_string len ++ codes ")"))
    else base_name ct

-- `sql_type_to_column_type`
unfoldable pub sql_type_to_column_type : DataType → ColumnType
sql_type_to_column_type DataType.int = ColumnType.long
sql_type_to_column_type DataType.integer = ColumnType.long
sql_type_to_column_type DataType.big_int = ColumnType.long_long
sql_type_to_column_type DataType.small_int = ColumnType.short
sql_type_to_column_type DataType.tiny_int = ColumnType.tiny
sql_type_to_column_type DataType.float = ColumnType.float
sql_type_to_column_type DataType.double = ColumnType.double
sql_type_to_column_type DataType.text = ColumnType.blob
sql_type_to_column_type DataType.varchar = ColumnType.var_char
sql_type_to_column_type DataType.char = ColumnType.string
sql_type_to_column_type DataType.boolean = ColumnType.tiny
sql_type_to_column_type DataType.blob = ColumnType.blob
sql_type_to_column_type DataType.date = ColumnType.date
sql_type_to_column_type DataType.datetime = ColumnType.date_time
sql_type_to_column_type DataType.timestamp = ColumnType.timestamp
sql_type_to_column_type DataType.json = ColumnType.json
sql_type_to_column_type (DataType.other _) = ColumnType.var_string

abbrev pub is_auto_increment : Token → Bool
is_auto_increment Token.auto_increment = true
is_auto_increment _ = false

module _ ⦃p : Platform⦄ where
  -- `parse_default_expr`
  unfoldable pub parse_default_expr : Expr → Option DefaultExpr
  parse_default_expr (Expr.value v) = some (DefaultExpr.value (sql_expr_to_value (Expr.value v)))
  parse_default_expr (Expr.function name) =
      if eq_ignore_ascii_case name (codes "now")
        || eq_ignore_ascii_case name (codes "current_timestamp")
      then some DefaultExpr.current_timestamp
      else none
  parse_default_expr e = none

  -- the options of a column, in their order
  unfoldable pub apply_options : List ColumnOption → Column → Column
  apply_options [] c = c
  apply_options (ColumnOption.dialect_specific tokens ∷ options) c =
      apply_options options
        (if any is_auto_increment tokens then record c { auto_increment = true } else c)
  apply_options (ColumnOption.default e ∷ options) c =
      apply_options options (record c { default_expr = parse_default_expr e })
  apply_options (ColumnOption.other _ ∷ options) c = apply_options options c

  -- a column of CREATE TABLE
  unfoldable pub column_of : Text → ColumnDef → Column
  column_of table_name col =
      apply_options col.options
        (Columns.new col.name table_name (sql_type_to_column_type col.data_type))

-- `eval_default_expr`, at the time `now` in seconds
unfoldable pub eval_default_expr : ℕ → DefaultExpr → Value
eval_default_expr now (DefaultExpr.value v) = v
eval_default_expr now DefaultExpr.current_timestamp = format_timestamp now
