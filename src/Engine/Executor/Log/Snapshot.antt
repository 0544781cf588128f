-- ===== src/Engine/Executor/Log/Snapshot.antt =====
-- The replay of the snapshot of a table that DELETE and UPDATE log.
use srrdb.Prelude.{
  ◌≡◌, refl, sym, ap, ◌∙◌, [], ◌∷◌, arith, ◌==◌, list_eq, nat_eq, nat_ord, list_beq_iff,
  if◌then◌else◌, Bool-cases, inl, inr,
}
use srrdb.Std.Text.{Text}
use srrdb.Std.HashMap
use srrdb.Std.BTreeMap
use srrdb.Std.Platform.{Platform}
use srrdb.Engine.Storage.{
  Table, Storage, get_table_mut, set_table, normalize, next_id_or_one, table_or_empty,
}
use srrdb.Engine.Storage.Stored.{
  IsStored, insert_loop-values, table-insert_rows, next_id-insert_rows,
}
use srrdb.Engine.Wal.{WalEntry, Database, emptied, apply_entry}

module _ ⦃p : Platform⦄ where
  pub table-set_table :
      (s : Storage) (name tn : Text) (t : Table)
      → (table_or_empty (set_table s name t) tn
          ≡ (if normalize name == tn then t else table_or_empty s tn))
        × (next_id_or_one (set_table s name t) tn ≡ next_id_or_one s tn)
  unfolding set_table
  table-set_table s name tn t =
      (ground (arith, HashMap.get-insert s.tables (normalize name) tn t), refl)

  table-emptied :
      (s : Storage) (name tn : Text)
      → (table_or_empty (emptied s name) tn
          ≡ (if normalize name == tn then [] else table_or_empty s tn))
        × (next_id_or_one (emptied s name) tn ≡ next_id_or_one s tn)
  unfolding get_table_mut
  table-emptied s name tn =
      ground (arith, table-set_table s name tn [], list_beq_iff (normalize name) tn)

  -- The replay of a snapshot of a well formed table gives its table these rows and leaves the
  -- others, and every next id.
  pub apply_entry-snapshot :
      (d : Database) (name tn : Text) (t : Table)
      → IsStored (next_id_or_one d.storage (normalize name)) t
      → (table_or_empty
            (apply_entry d (WalEntry.table_snapshot name (BTreeMap.values t))).0.storage
            tn
          ≡ (if normalize name == tn then t else table_or_empty d.storage tn))
        × (next_id_or_one
              (apply_entry d (WalEntry.table_snapshot name (BTreeMap.values t))).0.storage
              tn
            ≡ next_id_or_one d.storage tn)
  unfolding apply_entry BTreeMap.values
  apply_entry-snapshot d name tn [] s = table-emptied d.storage name tn
  apply_entry-snapshot d name tn ((k, row) ∷ t) s =
      let n = next_id_or_one d.storage (normalize name) in
      let s' = emptied d.storage name in
      let rows = BTreeMap.values ((k, row) ∷ t) in
      let back = insert_loop-values [] ((k, row) ∷ t) n s.1 s.2 in
      elim (Bool-cases (normalize name == tn)) [
        | inl e ↦
            let q = (list_beq_iff (normalize name) tn).0 e in
            let a : table_or_empty s' tn ≡ [] =
              ground (arith, table-emptied d.storage name tn, e) in
            let c : next_id_or_one s' tn ≡ n =
              (table-emptied d.storage name tn).1 ∙ ap (λ x. next_id_or_one d.storage x) (sym q) in
            (
              ground (arith, table-insert_rows s' name tn rows, a, c, e, back.0),
              ground (arith, next_id-insert_rows s' name tn rows, a, c, e, back.1, q),
            )
        | inr e ↦ ground (
          arith,
          table-insert_rows s' name tn rows,
          next_id-insert_rows s' name tn rows,
          table-emptied d.storage name tn,
          e,
        )
      ]
