-- ===== src/Engine/Executor/Log/Changes.antt =====
-- INSERT, DELETE and UPDATE each log an entry whose replay makes the change that they made.
use srrdb.Prelude.{
  ℕ, zero, suc, ◌+◌, ◌<◌, ◌≡◌, refl, sym, ap, ◌∙◌, subst, List, [], ◌++◌, arith, ◌==◌, list_eq,
  nat_eq, nat_ord, list_beq_iff, Bool-cases, inl, inr, ◌⊎◌, length, false, unwrap_or,
}
use srrdb.Std.Text.{Text}
use srrdb.Std.HashMap
use srrdb.Std.HashMap.{HashMap}
use srrdb.Std.BTreeMap
use srrdb.Std.Platform.{Platform}
use srrdb.Engine.Index.{IndexData}
use srrdb.Engine.Storage.{
  Row, Table, Storage, set_table, insert_rows, normalize, next_id_or_one, table_or_empty, u64_mod,
}
use srrdb.Engine.Storage.Insert.{AreNew}
use srrdb.Engine.Storage.Stored.{
  IsStored, IsWellFormed, SameRows, insert_rows-IsWellFormed, insert_rows-SameRows,
}
use srrdb.Engine.Catalog.{TableDef}
use srrdb.Engine.Wal.{Bincode, WalEntry, Database, serialize, apply_entry}
use srrdb.Engine.State.{Executor, log_wal, save_table}
use srrdb.Engine.Executor.Insert.{store_rows}
use srrdb.Engine.Executor.Change.{log_snapshot}
use srrdb.Engine.Executor.Change.Statements.{
  lock_storage-free, save_table-wal, save_table-storage, log_snapshot-storage,
}
use srrdb.Engine.Executor.Log.Snapshot.{table-set_table, apply_entry-snapshot}

module _ ⦃p : Platform⦄ ⦃b : Bincode⦄ where
  -- From `x` to `y` the rows did not change and nothing was logged, or one entry was logged whose
  -- replay on the rows of `x` gives those of `y`.
  abbrev pub Logs : Executor → Executor → Type 0
  Logs x y =
      ((y.wal ≡ x.wal) × SameRows x.storage y.storage)
      ⊎ ((e : WalEntry) × (y.wal ≡ x.wal ++ serialize e)
          × ((d : Database)
              → SameRows d.storage x.storage
              → SameRows (apply_entry d e).0.storage y.storage))

  abbrev pub Follows : Executor → Executor → Type 0
  Follows x y = IsWellFormed x.storage → IsWellFormed y.storage × Logs x y

  SameRows-tables :
      (s s' : Storage) → s.tables ≡ s'.tables → s.next_ids ≡ s'.next_ids → SameRows s s'
  unfolding SameRows
  SameRows-tables s s' e q tn =
      (ap (λ m. unwrap_or (HashMap.get m tn) []) e, ap (λ m. unwrap_or (HashMap.get m tn) 1) q)

  pub SameRows-trans : (s s' s'' : Storage) → SameRows s s' → SameRows s' s'' → SameRows s s''
  unfolding SameRows
  SameRows-trans s s' s'' h k tn = ((h tn).0 ∙ (k tn).0, (h tn).1 ∙ (k tn).1)

  SameRows-IsWellFormed : (s s' : Storage) → SameRows s s' → IsWellFormed s → IsWellFormed s'
  unfolding SameRows IsWellFormed
  SameRows-IsWellFormed s s' h w tn =
      subst (λ n. IsStored n (table_or_empty s' tn)) (h tn).1
        (subst (λ t. IsStored (next_id_or_one s tn) t) (h tn).0 (w tn))

  -- a statement that leaves the log and the storage
  pub Follows-same : (x y : Executor) → y.wal ≡ x.wal → y.storage ≡ x.storage → Follows x y
  Follows-same x y e q w =
      let same : SameRows x.storage y.storage =
        SameRows-tables x.storage y.storage (ap (λ s. s.tables) (sym q))
          (ap (λ s. s.next_ids) (sym q)) in
      (SameRows-IsWellFormed x.storage y.storage same w, inl (e, same))

  store_rows-stored :
      (x : Executor) (db name : Text) (def : TableDef) (rows : List Row) (last : ℕ)
      → x.storage_poisoned ≡ false
      → let y = (store_rows x db name def rows last).0 in
        (y.wal ≡ x.wal ++ serialize (WalEntry.insert_rows name rows))
        × (y.storage.tables ≡ (insert_rows x.storage name rows).0.tables)
        × (y.storage.next_ids ≡ (insert_rows x.storage name rows).0.next_ids)
  unfolding store_rows log_wal
  store_rows-stored x db name def rows last h =
      let x1 = log_wal x (WalEntry.insert_rows name rows) in
      let x2 : Executor = record x1 { storage = (insert_rows x.storage name rows).0 } in
      ground (arith, lock_storage-free x1 h, save_table-wal x2 name, save_table-storage x2 name)

  pub store_rows-Follows :
      (x : Executor) (db name : Text) (def : TableDef) (rows : List Row) (last : ℕ)
      → x.storage_poisoned ≡ false
      → AreNew rows
      → next_id_or_one x.storage (normalize name) + length rows < u64_mod
      → Follows x (store_rows x db name def rows last).0
  store_rows-Follows x db name def rows last h n k w =
      let (l, t, i) = store_rows-stored x db name def rows last h in
      let y = (store_rows x db name def rows last).0 in
      let same = SameRows-tables (insert_rows x.storage name rows).0 y.storage (sym t) (sym i) in
      (
        SameRows-IsWellFormed _ y.storage same (insert_rows-IsWellFormed x.storage name rows n k w),
        inr (
          WalEntry.insert_rows name rows,
          l,
          λ d q.
              unfold apply_entry in
              SameRows-trans _ _ y.storage (insert_rows-SameRows d.storage x.storage name rows q)
                same,
        ),
      )

  -- the executor after a table is replaced, as DELETE and UPDATE leave it
  abbrev pub with_table : Executor → Text → Table → HashMap Text IndexData → ℕ → Executor
  with_table x name t m n =
      save_table
        (log_snapshot
          (record x { storage = record (set_table x.storage name t) { index_data = m } }) name n)
        name

  with_table-storage :
      (x : Executor) (name : Text) (t : Table) (m : HashMap Text IndexData) (n : ℕ)
      → (with_table x name t m n).storage ≡ record (set_table x.storage name t) { index_data = m }
  with_table-storage x name t m n = save_table-storage _ name ∙ log_snapshot-storage _ name n

  with_table-SameRows :
      (x : Executor) (name : Text) (t : Table) (m : HashMap Text IndexData) (n : ℕ)
      → SameRows (set_table x.storage name t) (with_table x name t m n).storage
  with_table-SameRows x name t m n =
      let e = with_table-storage x name t m n in
      SameRows-tables _ _ (ap (λ s. s.tables) (sym e)) (ap (λ s. s.next_ids) (sym e))

  set_table-IsWellFormed :
      (s : Storage) (name : Text) (t : Table)
      → IsStored (next_id_or_one s (normalize name)) t
      → IsWellFormed s
      → IsWellFormed (set_table s name t)
  unfolding IsWellFormed
  set_table-IsWellFormed s name t h w tn = rw (table-set_table s name tn t).0 (
      rw (table-set_table s name tn t).1 (elim (Bool-cases (normalize name == tn)) [
        | inl e ↦ rw e (
            subst (λ k. IsStored (next_id_or_one s k) t) ((list_beq_iff (normalize name) tn).0 e) h)
        | inr e ↦ rw e (w tn)
      ]))

  set_table-SameRows :
      (s : Storage) (name : Text) (t : Table)
      → t ≡ table_or_empty s (normalize name)
      → SameRows s (set_table s name t)
  unfolding SameRows
  set_table-SameRows s name t e tn =
      ground (arith, table-set_table s name tn t, e, list_beq_iff (normalize name) tn)

  snapshot-SameRows :
      (x : Executor) (name : Text) (t : Table) (d : Database)
      → IsStored (next_id_or_one x.storage (normalize name)) t
      → SameRows d.storage x.storage
      → SameRows
          (apply_entry d (WalEntry.table_snapshot name (BTreeMap.values t))).0.storage
          (set_table x.storage name t)
  unfolding SameRows
  snapshot-SameRows x name t d h q tn =
      let h' = subst (λ n. IsStored n t) (sym (q (normalize name)).1) h in
      ground (arith, apply_entry-snapshot d name tn t h', table-set_table x.storage name tn t, q tn)

  with_table-wal :
      (x : Executor) (name : Text) (t : Table) (m : HashMap Text IndexData) (n : ℕ)
      → (with_table x name t m (suc n)).wal
        ≡ x.wal ++ serialize (WalEntry.table_snapshot name (BTreeMap.values t))
  unfolding log_snapshot log_wal
  with_table-wal x name t m n =
      let s' : Storage = record (set_table x.storage name t) { index_data = m } in
      let same : table_or_empty s' (normalize name) ≡ t = ground (
        arith,
        table-set_table x.storage name (normalize name) t,
        list_beq_iff (normalize name) (normalize name),
      ) in
      save_table-wal _ name
      ∙ ap (λ l. x.wal ++ serialize (WalEntry.table_snapshot name (BTreeMap.values l))) same

  with_table-Logs :
      (x : Executor) (name : Text) (t : Table) (m : HashMap Text IndexData) (n : ℕ)
      → IsStored (next_id_or_one x.storage (normalize name)) t
      → (n ≡ 0 → t ≡ table_or_empty x.storage (normalize name))
      → Logs x (with_table x name t m n)
  with_table-Logs x name t m zero h k = inl (
    unfold log_snapshot in save_table-wal _ name,
    SameRows-trans _ _ _ (set_table-SameRows x.storage name t (k refl))
        (with_table-SameRows x name t m zero),
  )
  with_table-Logs x name t m (suc n) h k = inr (
    WalEntry.table_snapshot name (BTreeMap.values t),
    with_table-wal x name t m n,
    λ d q.
        SameRows-trans _ _ _ (snapshot-SameRows x name t d h q)
          (with_table-SameRows x name t m (suc n)),
  )

  -- a table that was replaced, by itself where no row changed
  pub with_table-Follows :
      (x : Executor) (name : Text) (t : Table) (m : HashMap Text IndexData) (n : ℕ)
      → IsStored (next_id_or_one x.storage (normalize name)) t
      → (n ≡ 0 → t ≡ table_or_empty x.storage (normalize name))
      → Follows x (with_table x name t m n)
  with_table-Follows x name t m n h k w =
      let same = with_table-SameRows x name t m n in
      let y = with_table x name t m n in
      (
        SameRows-IsWellFormed _ y.storage same (set_table-IsWellFormed x.storage name t h w),
        with_table-Logs x name t m n h k,
      )
