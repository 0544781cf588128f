-- ===== src/Tests/EngineExamples.antt =====
-- The theorems on the catalog, the storage and the statements, on the table of two rows.
use srrdb.Prelude.{
  ◌+◌, ◌-◌, ◌≡◌, refl, true, false, not, ◌&&◌, none, some, List, [], ◌∷◌, ◌++◌, arith, ◌==◌,
  list_eq, nat_eq, nat_ord, if◌then◌else◌, done, failed, length, get_elem?, ltb,
}
use srrdb.Std.Text.{Text, codes}
use srrdb.Std.HashMap
use srrdb.Std.BTreeMap
use srrdb.Sql.Ast.{Expr, SqlValue, BinaryOperator}
use srrdb.Sql.Statements.{Statement, Assignment, AssignmentTarget}
use srrdb.Engine.Types.{text}
use srrdb.Engine.Types.Order.{value_eq}
use srrdb.Engine.Index
use srrdb.Engine.Index.{IndexData, Key, lookup_eq}
use srrdb.Engine.Index.Entries.{lookup_eq-insert, lookup_eq-delete}
use srrdb.Engine.Storage.{
  insert_rows, get_row, get_table_mut, normalize, next_id_or_one, insert_loop,
}
use srrdb.Engine.Storage.Insert.{ids_from, numbered, insert_rows-get_row}
use srrdb.Engine.Catalog.{create_table, drop_table, table_exists, get_table, Catalog}
use srrdb.Engine.Catalog.Tables.{is_same, table_exists-create_table, table_exists-drop_table}
use srrdb.Engine.Eval.{apply_op, eval_where, eval_expr, selects, sql_expr_to_value, values_equal}
use srrdb.Engine.Eval.Conditions.{compound_takes_none}
use srrdb.Engine.Query.{get_index_key}
use srrdb.Engine.Names.{name_to_string}
use srrdb.Engine.ExecuteResult.{ExecuteResult}
use srrdb.Engine.State.{lock_error}
use srrdb.Engine.Executor.{execute}
use srrdb.Engine.Executor.Poison.{execute-poisoned}
use srrdb.Engine.Executor.Change.{matching, assign_indices, execute_delete, execute_update}
use srrdb.Engine.Executor.Change.Rows.{is_taken}
use srrdb.Engine.Executor.Change.Updated.{update_taken}
use srrdb.Engine.Executor.Change.Statements.{execute_delete-get_row, execute_update-get_row}
use srrdb.Engine.Executor.Indexes.{build_index}
use srrdb.Engine.Executor.Indexes.Built.{ids_with, lookup_eq-build_index}
use srrdb.Tests.Ascii.{ascii}
use srrdb.Tests.Serializer.{serializer}
use srrdb.Tests.Data.{
  db, users, name_column, users_def, catalog, ann, users_table, storage, executor, is_ann,
  name_index,
}

compound_example :
    selects (Expr.binary_op is_ann BinaryOperator.and is_ann) (name_column ∷ []) ann.values
    ≡ some false
compound_example =
    compound_takes_none is_ann is_ann BinaryOperator.and (name_column ∷ []) ann.values refl

poisoned_example :
    execute 0
      (record executor { catalog_poisoned = true })
      db
      (Statement.delete (record { tables = []; from = []; selection = none }))
    ≡ (record executor { catalog_poisoned = true }, failed lock_error)
poisoned_example =
    execute-poisoned 0 (record executor { catalog_poisoned = true }) db
      (Statement.delete (record { tables = []; from = []; selection = none })) refl refl

insert_rows_example :
    ((insert_rows storage users (record ann { id = 0 } ∷ [])).1
      ≡ ids_from 3 (record ann { id = 0 } ∷ []))
    × (next_id_or_one (insert_rows storage users (record ann { id = 0 } ∷ [])).0 (normalize users)
        ≡ 3 + 1)
    × (get_row (insert_rows storage users (record ann { id = 0 } ∷ [])).0 users 3 ≡ (
        if (normalize users == normalize users) && not (ltb 3 3)
        then numbered (get_elem? (record ann { id = 0 } ∷ []) (3 - 3)) 3 (get_row storage users 3)
        else get_row storage users 3))
unfolding HashMap.get
insert_rows_example =
    insert_rows-get_row storage users users (record ann { id = 0 } ∷ []) 3 (refl, tt) (omega arith)

insert_rows_run :
    get_row (insert_rows storage users (record ann { id = 0 } ∷ [])).0 users 3
    ≡ some (record ann { id = 3 })
unfolding get_row insert_rows insert_loop HashMap.get HashMap.insert BTreeMap.get BTreeMap.insert
insert_rows_run = refl

abbrev by_name : IndexData
by_name = IndexData.btree ((text (codes "ann") ∷ [], 1 ∷ []) ∷ [])

lookup_eq-insert_example :
    lookup_eq (Index.insert by_name (text (codes "ann") ∷ []) 2) (text (codes "ann") ∷ []) ≡ (
      if (text (codes "ann") ∷ []) == (text (codes "ann") ∷ [])
      then lookup_eq by_name (text (codes "ann") ∷ []) ++ 2 ∷ []
      else lookup_eq by_name (text (codes "ann") ∷ []))
lookup_eq-insert_example =
    lookup_eq-insert by_name (text (codes "ann") ∷ []) (text (codes "ann") ∷ []) 2

lookup_eq-delete_example :
    lookup_eq (Index.delete by_name (text (codes "ann") ∷ []) 1) (text (codes "ann") ∷ []) ≡ []
unfolding lookup_eq BTreeMap.get
lookup_eq-delete_example =
    lookup_eq-delete by_name (text (codes "ann") ∷ []) (text (codes "ann") ∷ []) 1

build_index_example :
    (lookup_eq by_name (text (codes "ann") ∷ [])
      ≡ ids_with name_index (name_column ∷ []) (ann ∷ []) (text (codes "ann") ∷ []))
    × (name_index.unique
          && ltb 1
              (length (ids_with name_index (name_column ∷ []) (ann ∷ []) (text (codes "ann") ∷ [])))
        ≡ false)
unfolding build_index lookup_eq Index.new Index.insert get_index_key BTreeMap.get BTreeMap.insert
build_index_example =
    lookup_eq-build_index name_index (name_column ∷ []) (ann ∷ []) by_name (text (codes "ann") ∷ [])
      refl

abbrev orders : Text
orders = codes "orders"

abbrev with_orders : Catalog
with_orders = record catalog {
  databases =
      (
        db,
        record {
          name = db;
          tables = (users, users_def) ∷ (orders, record { name = orders; columns = [] }) ∷ [];
          indexes = (users, []) ∷ (orders, []) ∷ [];
        },
      )
      ∷ [];
  sequences = (users, 1) ∷ (orders, 1) ∷ [];
}

create_table_example :
    (table_exists catalog db orders ≡ false)
    × (table_exists with_orders db (codes "ORDERS") ≡ (
        if is_same db orders db (codes "ORDERS")
        then true
        else table_exists catalog db (codes "ORDERS")))
unfolding create_table HashMap.get HashMap.insert HashMap.or_insert
create_table_example =
    table_exists-create_table catalog with_orders db orders db (codes "ORDERS") [] refl

abbrev no_tables : Catalog
no_tables = record {
  databases = (db, record { name = db; tables = []; indexes = [] }) ∷ [];
  sequences = [];
}

drop_table_example :
    (table_exists catalog db (codes "Users") ≡ true)
    × (table_exists no_tables db users
        ≡ (if is_same db (codes "Users") db users then false else table_exists catalog db users))
unfolding drop_table HashMap.get HashMap.insert HashMap.remove
drop_table_example = table_exists-drop_table catalog no_tables db (codes "Users") db users refl

delete_example :
    ((execute_delete executor db users (some is_ann)).1 ≡ done (ExecuteResult.affected 1 0))
    × (get_row (execute_delete executor db users (some is_ann)).0.storage users 1 ≡ (
        if normalize users == normalize users
        then (if is_taken (some is_ann) (name_column ∷ []) (get_row storage users 1)
            then none
            else get_row storage users 1)
        else get_row storage users 1))
unfolding get_table get_table_mut HashMap.get matching selects eval_where eval_expr
    sql_expr_to_value values_equal apply_op
delete_example =
    execute_delete-get_row executor db users users (some is_ann) users_def users_table (ann ∷ []) 1
      refl refl refl refl refl ((refl, tt), (tt, tt))

abbrev set_null : List Assignment
set_null =
    record {
      target = AssignmentTarget.column_name (codes "name" ∷ []);
      value = Expr.value SqlValue.null;
    }
    ∷ []

update_example :
    ((execute_update executor db users set_null (some is_ann)).1
      ≡ done (ExecuteResult.affected 1 0))
    × (get_row (execute_update executor db users set_null (some is_ann)).0.storage users 1 ≡ (
        if normalize users == normalize users
        then update_taken
            (some is_ann)
            (name_column ∷ [])
            ((0, Expr.value SqlValue.null) ∷ [])
            (get_row storage users 1)
        else get_row storage users 1))
unfolding get_table get_table_mut HashMap.get matching selects eval_where eval_expr
    sql_expr_to_value values_equal assign_indices name_to_string apply_op
update_example =
    execute_update-get_row executor db users users set_null (some is_ann) users_def
      ((0, Expr.value SqlValue.null) ∷ []) users_table (ann ∷ []) 1 refl refl refl refl refl refl
      ((refl, tt), (tt, tt))
