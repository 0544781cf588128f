-- ===== src/Engine/Storage/Order.antt =====
-- The tables of the storage stay in the order of their ids.
use srrdb.Prelude.{ℕ, List, [], ◌∷◌, nat_ord}
use srrdb.Std.BTreeMap.Sorted.{IsSorted, insert-IsSorted}
use srrdb.Engine.Storage.{Row, Table, row_id, bump_id, insert_loop}

-- The loop of `insert_rows` keeps the order of the ids, whatever ids the rows ask for.
pub insert_loop-IsSorted :
    (rows : List Row) (t : Table) (n : ℕ) → IsSorted t → IsSorted (insert_loop rows t n).table
unfolding insert_loop
insert_loop-IsSorted [] t n s = s
insert_loop-IsSorted (row ∷ rows) t n s =
    insert_loop-IsSorted rows _ (bump_id n row)
      (insert-IsSorted t (row_id n row) (record row { id = row_id n row }) s)
