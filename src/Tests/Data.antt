-- ===== src/Tests/Data.antt =====
-- A database with one table of two rows.
use srrdb.Prelude.{true, false, none, List, [], ◌∷◌}
use srrdb.Std.Text.{Text, codes}
use srrdb.Sql.Ast.{Expr, SqlValue, BinaryOperator}
use srrdb.Engine.Types.{text}
use srrdb.Engine.Types.Columns.{Column, ColumnType}
use srrdb.Engine.Index.{IndexDef, IndexType}
use srrdb.Engine.Storage.{Row, Table, Storage}
use srrdb.Engine.Catalog.{Catalog, TableDef}
use srrdb.Engine.Wal.{WalEntry, Database}
use srrdb.Engine.State.{Executor}

abbrev pub db : Text
db = codes "srrdb"

abbrev pub users : Text
users = codes "users"

abbrev pub name_column : Column
name_column = record {
  name = codes "name";
  table = users;
  col_type = ColumnType.var_char;
  column_length = 255;
  charset = 45;
  flags = 0;
  decimals = 0;
  auto_increment = false;
  default_expr = none;
}

abbrev pub users_def : TableDef
users_def = record { name = users; columns = name_column ∷ [] }

abbrev pub catalog : Catalog
catalog = record {
  databases =
      (db, record { name = db; tables = (users, users_def) ∷ []; indexes = (users, []) ∷ [] }) ∷ [];
  sequences = (users, 1) ∷ [];
}

abbrev pub ann : Row
ann = record { id = 1; values = text (codes "ann") ∷ [] }

abbrev pub bob : Row
bob = record { id = 2; values = text (codes "bob") ∷ [] }

abbrev pub users_table : Table
users_table = (1, ann) ∷ (2, bob) ∷ []

abbrev pub storage : Storage
storage = record { tables = (users, users_table) ∷ []; next_ids = (users, 3) ∷ []; index_data = [] }

abbrev pub executor : Executor
executor = record {
  catalog = catalog;
  catalog_poisoned = false;
  storage = storage;
  storage_poisoned = false;
  wal = [];
  persistence = none;
}

-- `name = 'ann'`
abbrev pub is_ann : Expr
is_ann =
    Expr.binary_op (Expr.identifier (codes "name")) BinaryOperator.eq
      (Expr.value (SqlValue.single_quoted_string (codes "ann")))

abbrev pub name_index : IndexDef
name_index = record {
  name = codes "by_name";
  index_type = IndexType.btree;
  table_name = users;
  columns = codes "name" ∷ [];
  unique = true;
}

abbrev pub entries : List WalEntry
entries = WalEntry.insert_rows users (ann ∷ []) ∷ WalEntry.drop_table users ∷ []

abbrev pub database : Database
database = record { catalog = catalog; storage = storage }
