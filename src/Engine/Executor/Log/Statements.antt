-- ===== src/Engine/Executor/Log/Statements.antt =====
-- `execute_insert`, `execute_delete` and `execute_update`, on every branch.
use srrdb.Prelude.{
  ℕ, ◌+◌, ◌<◌, ◌≡◌, refl, sym, ap, ◌∙◌, subst, false, true, Option, some, List, [], ◌∷◌, arith,
  Option-cases, Result-cases, inl, inr, length, map, ok,
}
use srrdb.Std.Text.{Text}
use srrdb.Std.Platform.{Platform}
use srrdb.Sql.Ast.{Expr}
use srrdb.Sql.Statements.{Assignment, Query}
use srrdb.Engine.Storage.{
  Row, Table, Storage, get_table_mut, normalize, next_id_or_one, table_or_empty, u64_mod,
}
use srrdb.Engine.Storage.Stored.{IsStored, IsWellFormed}
use srrdb.Engine.Catalog.{Catalog, TableDef, get_table, get_table_indexes}
use srrdb.Engine.Wal.{Bincode}
use srrdb.Engine.State.{
  Executor, lock_catalog, lock_storage, insert_rows_into_indexes, delete_rows_from_indexes,
}
use srrdb.Engine.Executor.Insert.{execute_insert}
use srrdb.Engine.Executor.Change.{
  matching, remove_ids, update_rows, assign, assign_indices, delete_rows, change_rows,
  execute_delete, execute_update,
}
use srrdb.Engine.Executor.Change.Stored.{changes-IsStored}
use srrdb.Engine.Executor.Log.Filled.{rows_in, execute_insert-cases}
use srrdb.Engine.Executor.Log.Changes.{
  Follows, Follows-same, store_rows-Follows, with_table-Follows,
}

lock_storage-ok : (x : Executor) (s : Storage) → lock_storage x ≡ ok s → s ≡ x.storage
unfolding lock_storage
lock_storage-ok x s h = ground (arith, h)

module _ ⦃p : Platform⦄ ⦃b : Bincode⦄ where
  pub execute_insert-Follows :
      (now : ℕ) (x : Executor) (db name : Text) (columns : List Text) (source : Option Query)
      → x.storage_poisoned ≡ false
      → next_id_or_one x.storage (normalize name) + rows_in source < u64_mod
      → Follows x (execute_insert now x db name columns source).0
  execute_insert-Follows now x db name columns source h k =
      elim (execute_insert-cases now x db name columns source) [
        | inl (l, s) ↦ Follows-same x (execute_insert now x db name columns source).0 l s
        | inr (c, def, filled, last, new, q, e) ↦
            let k' =
              subst (λ n. next_id_or_one x.storage (normalize name) + n < u64_mod) (sym q) k in
            subst (λ y. Follows x y.0) (sym e)
              (store_rows-Follows (record x { catalog = c }) db name def filled last h new k')
      ]

  table_or_empty-some :
      (s : Storage) (name : Text) (t : Table)
      → get_table_mut s name ≡ some t
      → table_or_empty s (normalize name) ≡ t
  unfolding get_table_mut
  table_or_empty-some s name t h = rw (h, table_or_empty) refl

  IsStored-table :
      (s : Storage) (name : Text) (t : Table)
      → get_table_mut s name ≡ some t
      → IsWellFormed s
      → IsStored (next_id_or_one s (normalize name)) t
  unfolding IsWellFormed
  IsStored-table s name t h w =
      subst (λ l. IsStored (next_id_or_one s (normalize name)) l) (table_or_empty-some s name t h)
        (w (normalize name))

  remove_none : (rows : List Row) (t : Table) → length rows ≡ 0 → remove_ids rows t ≡ t
  unfolding remove_ids
  remove_none [] t h = refl
  remove_none (row ∷ rows) t h = absurd (omega (arith, h))

  update_none :
      (f : Row → Row) (rows : List Row) (t : Table)
      → length rows ≡ 0
      → update_rows (map f rows) t ≡ t
  unfolding update_rows
  update_none f [] t h = refl
  update_none f (row ∷ rows) t h = absurd (omega (arith, h))

  delete_matched-Follows :
      (x : Executor) (db name : Text) (selection : Option Expr) (c : Catalog) (def : TableDef)
      (t : Table)
      → lock_catalog x ≡ ok c
      → get_table c db name ≡ ok def
      → lock_storage x ≡ ok x.storage
      → get_table_mut x.storage name ≡ some t
      → Follows x (execute_delete x db name selection).0
  unfolding execute_delete delete_rows
  delete_matched-Follows x db name selection c def t l g s m w =
      elim (Option-cases (matching selection def.columns t)) [
        | inl r ↦
            rw (l, execute_delete)
              (rw g (
                rw s (
                  rw m (rw r (Follows-same x (record x { storage_poisoned = true }) refl refl w)))))
        | inr (rows, r) ↦
            let stored = changes-IsStored _ rows t (IsStored-table x.storage name t m w) in
            rw (l, execute_delete)
              (rw g (
                rw s (
                  rw m (
                    rw r (
                      with_table-Follows x name (remove_ids rows t)
                        (delete_rows_from_indexes x.storage.index_data name
                          (get_table_indexes c db name) def.columns rows)
                        (length rows) stored.0
                        (λ n. remove_none rows t n ∙ sym (table_or_empty-some x.storage name t m))
                        w)))))
      ]

  pub execute_delete-Follows :
      (x : Executor) (db name : Text) (selection : Option Expr)
      → Follows x (execute_delete x db name selection).0
  unfolding execute_delete
  execute_delete-Follows x db name selection = elim (Result-cases (lock_catalog x)) [
    | inl (e, l) ↦ rw (l, execute_delete) (Follows-same x x refl refl)
    | inr (c, l) ↦ elim (Result-cases (get_table c db name)) [
      | inl (e, g) ↦ rw (l, execute_delete) (rw g (Follows-same x x refl refl))
      | inr (def, g) ↦ elim (Result-cases (lock_storage x)) [
        | inl (e, s) ↦ rw (l, execute_delete) (rw g (rw s (Follows-same x x refl refl)))
        | inr (s', s) ↦
            let s0 : lock_storage x ≡ ok x.storage = s ∙ ap (λ q. ok q) (lock_storage-ok x s' s) in
            elim (Option-cases (get_table_mut x.storage name)) [
              | inl m ↦ rw (l, execute_delete) (rw g (rw s0 (rw m (Follows-same x x refl refl))))
              | inr (t, m) ↦ delete_matched-Follows x db name selection c def t l g s0 m
            ]
      ]
    ]
  ]

  update_matched-Follows :
      (x : Executor) (db name : Text) (assignments : List Assignment) (selection : Option Expr)
      (c : Catalog) (def : TableDef) (pairs : List (ℕ × Expr)) (t : Table)
      → lock_catalog x ≡ ok c
      → get_table c db name ≡ ok def
      → assign_indices def.columns assignments ≡ ok pairs
      → lock_storage x ≡ ok x.storage
      → get_table_mut x.storage name ≡ some t
      → Follows x (execute_update x db name assignments selection).0
  unfolding execute_update change_rows
  update_matched-Follows x db name assignments selection c def pairs t l g a s m w =
      elim (Option-cases (matching selection def.columns t)) [
        | inl r ↦
            rw (l, execute_update)
              (rw g (
                rw a (
                  rw s (
                    rw m
                      (rw r (Follows-same x (record x { storage_poisoned = true }) refl refl w))))))
        | inr (rows, r) ↦
            let new_rows = map (λ (r : Row). record r { values = assign pairs r.values }) rows in
            let stored = changes-IsStored _ new_rows t (IsStored-table x.storage name t m w) in
            rw (l, execute_update)
              (rw g (
                rw a (
                  rw s (
                    rw m (
                      rw r (
                        with_table-Follows x name (update_rows new_rows t)
                          (insert_rows_into_indexes
                            (delete_rows_from_indexes x.storage.index_data name
                              (get_table_indexes c db name) def.columns rows)
                            name (get_table_indexes c db name) def.columns new_rows)
                          (length rows) stored.1
                          (λ n.
                            update_none (λ (r : Row). record r { values = assign pairs r.values })
                              rows t n
                            ∙ sym (table_or_empty-some x.storage name t m))
                          w))))))
      ]

  update_assigned-Follows :
      (x : Executor) (db name : Text) (assignments : List Assignment) (selection : Option Expr)
      (c : Catalog) (def : TableDef) (pairs : List (ℕ × Expr))
      → lock_catalog x ≡ ok c
      → get_table c db name ≡ ok def
      → assign_indices def.columns assignments ≡ ok pairs
      → Follows x (execute_update x db name assignments selection).0
  unfolding execute_update
  update_assigned-Follows x db name assignments selection c def pairs l g a =
      elim (Result-cases (lock_storage x)) [
        | inl (e, s) ↦ rw (l, execute_update) (rw g (rw a (rw s (Follows-same x x refl refl))))
        | inr (s', s) ↦
            let s0 : lock_storage x ≡ ok x.storage = s ∙ ap (λ q. ok q) (lock_storage-ok x s' s) in
            elim (Option-cases (get_table_mut x.storage name)) [
              | inl m ↦
                  rw (l, execute_update) (rw g (rw a (rw s0 (rw m (Follows-same x x refl refl)))))
              | inr (t, m) ↦
                  update_matched-Follows x db name assignments selection c def pairs t l g a s0 m
            ]
      ]

  pub execute_update-Follows :
      (x : Executor) (db name : Text) (assignments : List Assignment) (selection : Option Expr)
      → Follows x (execute_update x db name assignments selection).0
  unfolding execute_update
  execute_update-Follows x db name assignments selection = elim (Result-cases (lock_catalog x)) [
    | inl (e, l) ↦ rw (l, execute_update) (Follows-same x x refl refl)
    | inr (c, l) ↦ elim (Result-cases (get_table c db name)) [
      | inl (e, g) ↦ rw (l, execute_update) (rw g (Follows-same x x refl refl))
      | inr (def, g) ↦ elim (Result-cases (assign_indices def.columns assignments)) [
        | inl (e, a) ↦ rw (l, execute_update) (rw g (rw a (Follows-same x x refl refl)))
        | inr (pairs, a) ↦ update_assigned-Follows x db name assignments selection c def pairs l g a
      ]
    ]
  ]
