-- ===== src/Engine/Types/Columns.antt =====
-- src/engine/types.rs: column types and columns.
use srrdb.Prelude.{
  ℕ, Bool, false, ◌||◌, Option, none, List, [], ◌∷◌, ◌==◌, nat_eq, list_eq, if◌then◌else◌,
}
use srrdb.Std.Text.{Text, codes}
use srrdb.Std.Platform.{Platform}
use srrdb.Engine.Types.{DefaultExpr}

pub data ColumnType : Type 0 where
  decimal tiny short long float double null timestamp long_long int24 date time : ColumnType
  date_time year var_char bit json new_decimal enum set tiny_blob medium_blob long_blob : ColumnType
  blob var_string string geometry : ColumnType

-- `col_type as u8`
unfoldable pub type_code : ColumnType → ℕ
type_code ColumnType.decimal = 0
type_code ColumnType.tiny = 1
type_code ColumnType.short = 2
type_code ColumnType.long = 3
type_code ColumnType.float = 4
type_code ColumnType.double = 5
type_code ColumnType.null = 6
type_code ColumnType.timestamp = 7
type_code ColumnType.long_long = 8
type_code ColumnType.int24 = 9
type_code ColumnType.date = 10
type_code ColumnType.time = 11
type_code ColumnType.date_time = 12
type_code ColumnType.year = 13
type_code ColumnType.var_char = 15
type_code ColumnType.bit = 16
type_code ColumnType.json = 245
type_code ColumnType.new_decimal = 246
type_code ColumnType.enum = 247
type_code ColumnType.set = 248
type_code ColumnType.tiny_blob = 249
type_code ColumnType.medium_blob = 250
type_code ColumnType.long_blob = 251
type_code ColumnType.blob = 252
type_code ColumnType.var_string = 253
type_code ColumnType.string = 254
type_code ColumnType.geometry = 255

-- one arm of a match on texts
abbrev is_any : Text → List Text → Bool
is_any s [] = false
is_any s (t ∷ ts) = s == t || is_any s ts

module _ ⦃p : Platform⦄ where
  -- `ColumnType::from_sql_type`
  unfoldable pub from_sql_type : Text → ColumnType
  from_sql_type sql_type =
      let s = p.to_uppercase sql_type in
      if is_any s (codes "INT" ∷ codes "INTEGER" ∷ codes "INT4" ∷ [])
      then ColumnType.long
      else if is_any s (codes "BIGINT" ∷ codes "INT8" ∷ [])
      then ColumnType.long_long
      else if is_any s (codes "SMALLINT" ∷ codes "INT2" ∷ [])
      then ColumnType.short
      else if is_any s (codes "TINYINT" ∷ [])
      then ColumnType.tiny
      else if is_any s (codes "FLOAT" ∷ [])
      then ColumnType.float
      else if is_any s (codes "DOUBLE" ∷ codes "REAL" ∷ [])
      then ColumnType.double
      else if is_any s (codes "DECIMAL" ∷ codes "NUMERIC" ∷ [])
      then ColumnType.new_decimal
      else if is_any s (codes "VARCHAR" ∷ codes "CHARACTER VARYING" ∷ [])
      then ColumnType.var_char
      else if is_any s (codes "CHAR" ∷ [])
      then ColumnType.string
      else if is_any s (codes "TEXT" ∷ codes "CLOB" ∷ [])
      then ColumnType.blob
      else if is_any s (codes "BOOLEAN" ∷ codes "BOOL" ∷ [])
      then ColumnType.tiny
      else if is_any s (codes "BLOB" ∷ [])
      then ColumnType.blob
      else if is_any s (codes "DATE" ∷ [])
      then ColumnType.date
      else if is_any s (codes "TIMESTAMP" ∷ [])
      then ColumnType.timestamp
      else if is_any s (codes "JSON" ∷ [])
      then ColumnType.json
      else ColumnType.var_char

-- `ColumnType::default_length`
unfoldable pub default_length : ColumnType → ℕ
default_length ColumnType.tiny = 4
default_length ColumnType.short = 6
default_length ColumnType.long = 11
default_length ColumnType.long_long = 20
default_length ColumnType.float = 12
default_length ColumnType.double = 22
default_length ColumnType.var_char = 255
default_length ColumnType.string = 255
default_length ColumnType.blob = 65535
default_length ColumnType.var_string = 65535
default_length ColumnType.date = 10
default_length ColumnType.timestamp = 19
default_length _ = 255

pub record Column : Type 0 where
  pub name : Text
  pub table : Text
  pub col_type : ColumnType
  pub column_length : ℕ
  pub charset : ℕ
  pub flags : ℕ
  pub decimals : ℕ
  pub auto_increment : Bool
  pub default_expr : Option DefaultExpr

-- `Column::new`
unfoldable pub new : Text → Text → ColumnType → Column
unfolding default_length
new name table col_type = record {
  name = name;
  table = table;
  col_type = col_type;
  column_length = default_length col_type;
  charset = 45;
  flags = 0;
  decimals = 0;
  auto_increment = false;
  default_expr = none;
}
