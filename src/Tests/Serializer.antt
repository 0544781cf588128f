-- ===== src/Tests/Serializer.antt =====
-- Serializers of the engine's types.
use srrdb.Prelude.{ℕ, ◌≤◌, ◌≡◌, refl, Bool, Option, List, arith, nat_beq, if◌then◌else◌}
use srrdb.Std.Text.{Text}
use srrdb.Engine.Types.{Value, DefaultExpr}
use srrdb.Engine.Types.Columns.{Column, ColumnType, type_code}
use srrdb.Engine.Index.{IndexDef, IndexType}
use srrdb.Engine.Storage.{Row}
use srrdb.Engine.Catalog.{Catalog, DatabaseDef, TableDef}
use srrdb.Engine.Wal.{Bincode}
use srrdb.Tests.Values.{
  bool_coding, index_data_coding, index_type_coding, option_coding, same_coding, text_coding,
  value_coding,
}
use srrdb.Tests.Codecs.{Coding, nat_coding, pair_coding, map_coding, list_coding, codec_of}

abbrev pub type_from : ℕ → ColumnType
type_from n =
    if nat_beq n 0
    then ColumnType.decimal
    else if nat_beq n 1
    then ColumnType.tiny
    else if nat_beq n 2
    then ColumnType.short
    else if nat_beq n 3
    then ColumnType.long
    else if nat_beq n 4
    then ColumnType.float
    else if nat_beq n 5
    then ColumnType.double
    else if nat_beq n 6
    then ColumnType.null
    else if nat_beq n 7
    then ColumnType.timestamp
    else if nat_beq n 8
    then ColumnType.long_long
    else if nat_beq n 9
    then ColumnType.int24
    else if nat_beq n 10
    then ColumnType.date
    else if nat_beq n 11
    then ColumnType.time
    else if nat_beq n 12
    then ColumnType.date_time
    else if nat_beq n 13
    then ColumnType.year
    else if nat_beq n 15
    then ColumnType.var_char
    else if nat_beq n 16
    then ColumnType.bit
    else if nat_beq n 245
    then ColumnType.json
    else if nat_beq n 246
    then ColumnType.new_decimal
    else if nat_beq n 247
    then ColumnType.enum
    else if nat_beq n 248
    then ColumnType.set
    else if nat_beq n 249
    then ColumnType.tiny_blob
    else if nat_beq n 250
    then ColumnType.medium_blob
    else if nat_beq n 251
    then ColumnType.long_blob
    else if nat_beq n 252
    then ColumnType.blob
    else if nat_beq n 253
    then ColumnType.var_string
    else if nat_beq n 254
    then ColumnType.string
    else ColumnType.geometry

pub type_back : (t : ColumnType) → type_from (type_code t) ≡ t
unfolding type_code
type_back ColumnType.decimal = refl
type_back ColumnType.tiny = refl
type_back ColumnType.short = refl
type_back ColumnType.long = refl
type_back ColumnType.float = refl
type_back ColumnType.double = refl
type_back ColumnType.null = refl
type_back ColumnType.timestamp = refl
type_back ColumnType.long_long = refl
type_back ColumnType.int24 = refl
type_back ColumnType.date = refl
type_back ColumnType.time = refl
type_back ColumnType.date_time = refl
type_back ColumnType.year = refl
type_back ColumnType.var_char = refl
type_back ColumnType.bit = refl
type_back ColumnType.json = refl
type_back ColumnType.new_decimal = refl
type_back ColumnType.enum = refl
type_back ColumnType.set = refl
type_back ColumnType.tiny_blob = refl
type_back ColumnType.medium_blob = refl
type_back ColumnType.long_blob = refl
type_back ColumnType.blob = refl
type_back ColumnType.var_string = refl
type_back ColumnType.string = refl
type_back ColumnType.geometry = refl

pub one_element : (n : ℕ) → 1 ≤ 1
one_element n = omega arith

abbrev pub type_coding : Coding ColumnType
type_coding = map_coding nat_coding type_from type_code type_back one_element

abbrev pub column_from :
    Text × (Text × (ColumnType × (ℕ × (ℕ × (ℕ × (ℕ × (Bool × (Option DefaultExpr)))))))) → Column
column_from (x0, (x1, (x2, (x3, (x4, (x5, (x6, (x7, x8)))))))) = record {
  name = x0;
  table = x1;
  col_type = x2;
  column_length = x3;
  charset = x4;
  flags = x5;
  decimals = x6;
  auto_increment = x7;
  default_expr = x8;
}

abbrev pub column_to :
    Column → Text × (Text × (ColumnType × (ℕ × (ℕ × (ℕ × (ℕ × (Bool × (Option DefaultExpr))))))))
column_to r = (
  r.name,
  (
    r.table,
    (
      r.col_type,
      (r.column_length, (r.charset, (r.flags, (r.decimals, (r.auto_increment, r.default_expr))))),
    ),
  ),
)

pub column_back : (b : Column) → column_from (column_to b) ≡ b
column_back r = refl

pub column_forth :
    (a : Text × (Text × (ColumnType × (ℕ × (ℕ × (ℕ × (ℕ × (Bool × (Option DefaultExpr)))))))))
    → column_to (column_from a) ≡ a
column_forth (x0, (x1, (x2, (x3, (x4, (x5, (x6, (x7, x8)))))))) = refl

abbrev pub column_coding : Coding Column
column_coding =
    same_coding
      (pair_coding text_coding (
        pair_coding text_coding (
          pair_coding type_coding (
            pair_coding nat_coding (
              pair_coding nat_coding (
                pair_coding nat_coding
                  (pair_coding nat_coding (pair_coding bool_coding option_coding))))))))
      column_from column_to column_back column_forth

abbrev pub row_from : ℕ × (List Value) → Row
row_from (x0, x1) = record { id = x0; values = x1 }

abbrev pub row_to : Row → ℕ × (List Value)
row_to r = (r.id, r.values)

pub row_back : (b : Row) → row_from (row_to b) ≡ b
row_back r = refl

pub row_forth : (a : ℕ × (List Value)) → row_to (row_from a) ≡ a
row_forth (x0, x1) = refl

abbrev pub row_coding : Coding Row
row_coding =
    same_coding (pair_coding nat_coding (list_coding value_coding)) row_from row_to row_back
      row_forth

abbrev pub index_def_from : Text × (IndexType × (Text × (List Text × (Bool)))) → IndexDef
index_def_from (x0, (x1, (x2, (x3, x4)))) = record {
  name = x0;
  index_type = x1;
  table_name = x2;
  columns = x3;
  unique = x4;
}

abbrev pub index_def_to : IndexDef → Text × (IndexType × (Text × (List Text × (Bool))))
index_def_to r = (r.name, (r.index_type, (r.table_name, (r.columns, r.unique))))

pub index_def_back : (b : IndexDef) → index_def_from (index_def_to b) ≡ b
index_def_back r = refl

pub index_def_forth :
    (a : Text × (IndexType × (Text × (List Text × (Bool))))) → index_def_to (index_def_from a) ≡ a
index_def_forth (x0, (x1, (x2, (x3, x4)))) = refl

abbrev pub index_def_coding : Coding IndexDef
index_def_coding =
    same_coding
      (pair_coding text_coding (
        pair_coding index_type_coding
          (pair_coding text_coding (pair_coding (list_coding text_coding) bool_coding))))
      index_def_from index_def_to index_def_back index_def_forth

abbrev pub table_from : Text × (List Column) → TableDef
table_from (x0, x1) = record { name = x0; columns = x1 }

abbrev pub table_to : TableDef → Text × (List Column)
table_to r = (r.name, r.columns)

pub table_back : (b : TableDef) → table_from (table_to b) ≡ b
table_back r = refl

pub table_forth : (a : Text × (List Column)) → table_to (table_from a) ≡ a
table_forth (x0, x1) = refl

abbrev pub table_coding : Coding TableDef
table_coding =
    same_coding (pair_coding text_coding (list_coding column_coding)) table_from table_to table_back
      table_forth

abbrev pub database_from :
    Text × (List (Text × TableDef) × (List (Text × List IndexDef))) → DatabaseDef
database_from (x0, (x1, x2)) = record { name = x0; tables = x1; indexes = x2 }

abbrev pub database_to :
    DatabaseDef → Text × (List (Text × TableDef) × (List (Text × List IndexDef)))
database_to r = (r.name, (r.tables, r.indexes))

pub database_back : (b : DatabaseDef) → database_from (database_to b) ≡ b
database_back r = refl

pub database_forth :
    (a : Text × (List (Text × TableDef) × (List (Text × List IndexDef))))
    → database_to (database_from a) ≡ a
database_forth (x0, (x1, x2)) = refl

abbrev pub database_coding : Coding DatabaseDef
database_coding =
    same_coding
      (pair_coding text_coding (
        pair_coding (list_coding (pair_coding text_coding table_coding))
          (list_coding (pair_coding text_coding (list_coding index_def_coding)))))
      database_from database_to database_back database_forth

abbrev pub catalog_from : List (Text × DatabaseDef) × (List (Text × ℕ)) → Catalog
catalog_from (x0, x1) = record { databases = x0; sequences = x1 }

abbrev pub catalog_to : Catalog → List (Text × DatabaseDef) × (List (Text × ℕ))
catalog_to r = (r.databases, r.sequences)

pub catalog_back : (b : Catalog) → catalog_from (catalog_to b) ≡ b
catalog_back r = refl

pub catalog_forth :
    (a : List (Text × DatabaseDef) × (List (Text × ℕ))) → catalog_to (catalog_from a) ≡ a
catalog_forth (x0, x1) = refl

abbrev pub catalog_coding : Coding Catalog
catalog_coding =
    same_coding
      (pair_coding (list_coding (pair_coding text_coding database_coding))
        (list_coding (pair_coding text_coding nat_coding)))
      catalog_from catalog_to catalog_back catalog_forth

instance abbrev pub serializer : Bincode
serializer = record {
  text = codec_of text_coding;
  columns = codec_of (list_coding column_coding);
  rows = codec_of (list_coding row_coding);
  index_def = codec_of index_def_coding;
  catalog = codec_of catalog_coding;
  index_data = codec_of index_data_coding;
  count = codec_of nat_coding;
}
