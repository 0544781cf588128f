-- ===== src/Tests/IndexExamples.antt =====
-- The theorems on CREATE INDEX, on the indexes in SELECT and UPDATE, and on the clearing of a
-- table.
use srrdb.Prelude.{
  ◌≡◌, refl, true, false, none, some, [], ◌∷◌, ◌++◌, list_eq, nat_eq, nat_ord, if◌then◌else◌,
  failed, any, length, ◌<◌, arith,
}
use srrdb.Std.Text.{codes}
use srrdb.Std.HashMap
use srrdb.Std.BTreeMap
use srrdb.Sql.Ast.{Expr}
use srrdb.Sql.Statements.{CreateIndex}
use srrdb.Engine.Types.{text}
use srrdb.Engine.Types.Order.{value_eq, value_ord}
use srrdb.Engine.Index.{Key, IndexDef, IndexData, IndexType, lookup_eq}
use srrdb.Engine.Storage.{clear_table, get_row, normalize, next_id_or_one}
use srrdb.Engine.Storage.Clear.{NoColon, get_row-clear_table}
use srrdb.Engine.Catalog.{create_index, get_table_indexes, table_exists, get_table, is_named}
use srrdb.Engine.Catalog.Tables.{is_same}
use srrdb.Engine.Catalog.Indexes.{get_table_indexes-create_index}
use srrdb.Engine.Names.{name_to_string}
use srrdb.Engine.Query.{extract_column_ref, get_index_key}
use srrdb.Engine.State.{Executor}
use srrdb.Engine.State.Maintained.{data_of}
use srrdb.Engine.Executor.Change.{assign, change_rows}
use srrdb.Engine.Executor.Change.Indexed.{lookup_eq-change_rows}
use srrdb.Engine.Executor.Indexes.{index_def_of, duplicate_entry, execute_create_index}
use srrdb.Engine.Executor.Indexes.Refused.{execute_create_index-duplicate}
use srrdb.Sql.Ast.{SqlValue}
use srrdb.Engine.Storage.{Storage, normalize, get_rows}
use srrdb.Engine.Query.{index_key, get_index_key}
use srrdb.Engine.Eval.{eval_const_expr, sql_expr_to_value, values_equal}
use srrdb.Engine.Executor.Select.{select_rows, retain}
use srrdb.Engine.Executor.Select.Indexed.{select_rows-index}
use srrdb.Engine.Executor.Indexes.Built.{ids_with}
use srrdb.Engine.Wal.{WalEntry, serialize}
use srrdb.Tests.Ascii.{ascii}
use srrdb.Tests.Serializer.{serializer}
use srrdb.Tests.Data.{
  db, users, users_def, catalog, ann, storage, executor, name_index, name_column, is_ann,
  users_table,
}

create_index_example :
    (table_exists catalog db users ≡ true)
    × (any (is_named name_index.name) (get_table_indexes catalog db users) ≡ false)
    × (get_table_indexes (create_index catalog db name_index).0 db (codes "USERS") ≡ (
        if is_same db users db (codes "USERS")
        then get_table_indexes catalog db (codes "USERS") ++ name_index ∷ []
        else get_table_indexes catalog db (codes "USERS")))
unfolding create_index HashMap.get
create_index_example = get_table_indexes-create_index catalog db db (codes "USERS") name_index refl

abbrev twice_ann : Executor
twice_ann = record executor {
  storage = record storage { tables = (users, (1, ann) ∷ (2, record ann { id = 2 }) ∷ []) ∷ [] };
}

abbrev by_name_once : CreateIndex
by_name_once = record {
  name = some (codes "by_name" ∷ []);
  table_name = users ∷ [];
  using_type = none;
  columns = Expr.identifier (codes "name") ∷ [];
  unique = true;
}

abbrev once : IndexDef
once = index_def_of by_name_once users

duplicate_example :
    (j : Key) × ((execute_create_index twice_ann db users by_name_once).1
      ≡ failed (duplicate_entry j once.name))
    × (1 < length (ids_with once (name_column ∷ []) (get_rows twice_ann.storage users) j))
    × ((execute_create_index twice_ann db users by_name_once).0.storage.tables
        ≡ twice_ann.storage.tables)
    × (HashMap.get
          (execute_create_index twice_ann db users by_name_once).0.storage.index_data
          (index_key (normalize users) once.name)
        ≡ none)
    × (get_table_indexes (execute_create_index twice_ann db users by_name_once).0.catalog db users
        ≡ get_table_indexes catalog db users ++ once ∷ [])
    × ((execute_create_index twice_ann db users by_name_once).0.wal
        ≡ serialize (WalEntry.create_index db once))
unfolding get_table get_table_indexes HashMap.get BTreeMap.values get_rows ids_with get_index_key
    name_to_string extract_column_ref
duplicate_example =
    execute_create_index-duplicate twice_ann db users by_name_once users_def
      (text (codes "ann") ∷ []) refl refl refl refl refl refl (omega arith)

abbrev name_data : IndexData
name_data =
    IndexData.btree ((text (codes "ann") ∷ [], 1 ∷ []) ∷ (text (codes "bob") ∷ [], 2 ∷ []) ∷ [])

abbrev indexed : Storage
indexed = record storage {
  index_data = (index_key (normalize users) name_index.name, name_data) ∷ [];
}

select_rows_example :
    select_rows indexed users (name_column ∷ []) (name_index ∷ []) (some is_ann)
    ≡ retain is_ann (name_column ∷ []) (get_rows indexed users)
unfolding HashMap.get lookup_eq BTreeMap.get ids_with get_index_key get_rows BTreeMap.values
    eval_const_expr sql_expr_to_value values_equal
select_rows_example =
    select_rows-index indexed 3 users (codes "name") (SqlValue.single_quoted_string (codes "ann"))
      (name_column ∷ []) name_index [] name_data
      (
        omega arith,
        (refl, omega arith, omega arith, (refl, omega arith, omega arith, tt)),
        ((refl, tt), (tt, tt)),
      )
      refl refl refl refl (refl, (refl, tt))

abbrev second_index : IndexDef
second_index = record name_index { name = codes "by_name_2"; index_type = IndexType.hash }

-- SET name = 'bob' for ann
change_rows_example :
    lookup_eq
      (data_of
        (change_rows indexed users
          (second_index ∷ name_index ∷ [])
          (name_column ∷ [])
          users_table
          (ann ∷ [])
          ((0, Expr.value (SqlValue.single_quoted_string (codes "bob"))) ∷ [])).index_data
        (normalize users)
        name_index)
      (text (codes "bob") ∷ [])
    ≡ 2 ∷ 1 ∷ []
unfolding HashMap.get lookup_eq BTreeMap.get ids_with get_index_key assign eval_const_expr
    sql_expr_to_value
change_rows_example =
    lookup_eq-change_rows indexed users (second_index ∷ []) name_index [] (name_column ∷ [])
      users_table (ann ∷ []) ((0, Expr.value (SqlValue.single_quoted_string (codes "bob"))) ∷ [])
      (text (codes "bob") ∷ []) (refl, tt) tt

users-NoColon : NoColon (normalize users)
users-NoColon = (
  (λ e. omega (arith, e)),
  (
    (λ e. omega (arith, e)),
    ((λ e. omega (arith, e)), ((λ e. omega (arith, e)), ((λ e. omega (arith, e)), tt))),
  ),
)

clear_table_example :
    (get_row (clear_table indexed users) users 1 ≡ none)
    × (next_id_or_one (clear_table indexed users) (normalize users) ≡ 1)
    × (HashMap.get
          (clear_table indexed users).index_data
          (index_key (normalize users) name_index.name)
        ≡ none)
clear_table_example =
    get_row-clear_table indexed users users name_index.name 1 users-NoColon users-NoColon
