-- ===== src/Tests/LogExamples.antt =====
-- The theorems on the log of statements, on an INSERT and a DELETE.
use srrdb.Prelude.{
  ℕ, ◌≡◌, refl, ◌<◌, arith, none, some, [], ◌∷◌, ◌++◌, ◌==◌, list_eq, nat_eq, Bool-cases, inl, inr,
  length,
}
use srrdb.Std.Text.{Text, codes}
use srrdb.Std.HashMap
use srrdb.Sql.Ast.{Expr, SqlValue}
use srrdb.Sql.Statements.{SetExpr, Query}
use srrdb.Engine.Storage.{
  Storage, table_or_empty, insert_rows, insert_loop, get_table_mut, set_table,
}
use srrdb.Engine.Storage.Stored.{IsStored, IsWellFormed, SameRows}
use srrdb.Std.BTreeMap
use srrdb.Engine.Wal.{Database, replayed, replay, serialize, payload}
use srrdb.Engine.Wal.Frames.{size_limit}
use srrdb.Engine.Sort.{sort_by, insert_by}
use srrdb.Engine.Catalog.{get_table, get_table_indexes}
use srrdb.Engine.Eval.{selects, eval_where, eval_expr, sql_expr_to_value, values_equal, apply_op}
use srrdb.Engine.Wal.Checkpoint.{restored, table_bytes, build_checkpoint_data, replay_checkpoint}
use srrdb.Engine.Wal.Restored.{HasNames, count, replay_checkpoint-build}
use srrdb.Engine.State.{
  Executor, lock_catalog, lock_storage, log_wal, save_table, delete_rows_from_indexes,
}
use srrdb.Engine.Executor.Insert.{execute_insert, rows_of, row_of, fill_rows, fill_row, store_rows}
use srrdb.Engine.Executor.Change.{execute_delete, matching, delete_rows, remove_ids, log_snapshot}
use srrdb.Engine.Executor.Log.Replayed.{
  Changes, start, next, inserted, deleted, changes-IsWellFormed, replay-changes,
}
use srrdb.Tests.Ascii.{ascii}
use srrdb.Tests.Serializer.{serializer}
use srrdb.Tests.Data.{db, users, storage, executor, database, is_ann, users_table}

-- VALUES ('eve')
abbrev eve : Query
eve = record {
  body = SetExpr.values ((Expr.value (SqlValue.single_quoted_string (codes "eve")) ∷ []) ∷ []);
  order_by = none;
  offset = none;
  limit = none;
}

abbrev inserted_eve : Executor
inserted_eve = (execute_insert 0 executor db users [] (some eve)).0

abbrev deleted_ann : Executor
deleted_ann = (execute_delete inserted_eve db users (some is_ann)).0

IsStored-users : IsStored 3 users_table
IsStored-users = (
  omega arith,
  (refl, omega arith, omega arith, (refl, omega arith, omega arith, tt)),
  ((refl, tt), (tt, tt)),
)

storage-IsWellFormed : IsWellFormed storage
unfolding IsWellFormed HashMap.get
storage-IsWellFormed tn = elim (Bool-cases (users == tn)) [
  | inl e ↦ rw e IsStored-users
  | inr e ↦ rw e (omega arith, tt, tt)
]

run : Changes executor deleted_ann
unfolding HashMap.get
run =
    next (next start (inserted 0 db users [] (some eve) refl (omega arith)))
      (deleted db users (some is_ann))

small : length deleted_ann.wal < size_limit
unfolding execute_insert lock_catalog get_table HashMap.get rows_of row_of fill_rows fill_row
    store_rows log_wal serialize payload lock_storage insert_rows insert_loop BTreeMap.insert
    save_table get_table_indexes HashMap.insert execute_delete get_table_mut matching selects
    eval_where eval_expr sql_expr_to_value values_equal apply_op delete_rows set_table remove_ids
    BTreeMap.remove log_snapshot BTreeMap.values delete_rows_from_indexes
small = omega arith

changes-IsWellFormed_example : IsWellFormed deleted_ann.storage
changes-IsWellFormed_example = changes-IsWellFormed executor deleted_ann storage-IsWellFormed run

replay-changes_example :
    (d' : Database) × (n : ℕ) × (replay deleted_ann.wal database ≡ replayed d' n)
    × SameRows d'.storage deleted_ann.storage
unfolding SameRows
replay-changes_example =
    replay-changes database executor deleted_ann refl (λ tn. (refl, refl)) storage-IsWellFormed run
      small

storage-HasNames : HasNames storage
unfolding HashMap.keys count
storage-HasNames = ((refl, tt), λ k. ground arith)

replay_checkpoint_example :
    (s : Storage) × (replay_checkpoint (build_checkpoint_data database ++ (1 ∷ []))
      ≡ restored (record { catalog = database.catalog; storage = s }))
    × ((k : Text) → table_or_empty s k ≡ table_or_empty database.storage k)
unfolding build_checkpoint_data table_bytes sort_by insert_by HashMap.get HashMap.keys
    BTreeMap.values
replay_checkpoint_example =
    replay_checkpoint-build database (1 ∷ []) storage-IsWellFormed storage-HasNames (λ s rest. refl)
      (λ rows rest. refl) (λ n rest. refl) (omega arith)
