-- ===== src/Engine/Catalog/Tables.antt =====
-- The catalog after CREATE TABLE, DROP TABLE and CREATE INDEX: names are compared in lower case.
use srrdb.Prelude.{
  ◌≡◌, Bool, true, false, ◌&&◌, List, arith, ◌==◌, list_eq, nat_eq, list_beq_iff, if◌then◌else◌, ok,
  Option-cases, inl, inr,
}
use srrdb.Std.Text.{Text}
use srrdb.Std.HashMap
use srrdb.Std.Platform.{Platform}
use srrdb.Engine.Types.Columns.{Column}
use srrdb.Engine.Storage.{normalize}
use srrdb.Engine.Catalog.{Catalog, TableDef, add_table, create_table, drop_table, table_exists}

module _ ⦃p : Platform⦄ where
  -- the same table: both names agree in lower case
  abbrev pub is_same : Text → Text → Text → Text → Bool
  is_same db t db' t' = (normalize db == normalize db') && (normalize t == normalize t')

  -- Where CREATE TABLE succeeds, the table was not there; then it is, and no other table comes or
  -- goes.
  pub table_exists-create_table :
      (c c' : Catalog) (db t db' t' : Text) (columns : List Column)
      → create_table c db t columns ≡ ok c'
      → (table_exists c db t ≡ false)
        × (table_exists c' db' t' ≡ (if is_same db t db' t' then true else table_exists c db' t'))
  unfolding create_table table_exists
  table_exists-create_table c c' db t db' t' columns h =
      elim (Option-cases (HashMap.get c.databases (normalize db))) [
        | inl e ↦ absurd (ground (arith, h, e))
        | inr (d, e) ↦
            let def : TableDef = record { name = t; columns = columns } in
            ground (
              arith,
              h,
              e,
              HashMap.get-insert c.databases (normalize db) (normalize db')
                  (add_table d (normalize t) def),
              HashMap.get-insert d.tables (normalize t) (normalize t') def,
              list_beq_iff (normalize db) (normalize db'),
              list_beq_iff (normalize t) (normalize t'),
            )
      ]

  -- Where DROP TABLE succeeds, the table was there; then it is not, and no other table comes or
  -- goes.
  pub table_exists-drop_table :
      (c c' : Catalog) (db t db' t' : Text)
      → drop_table c db t ≡ ok c'
      → (table_exists c db t ≡ true)
        × (table_exists c' db' t' ≡ (if is_same db t db' t' then false else table_exists c db' t'))
  unfolding drop_table table_exists
  table_exists-drop_table c c' db t db' t' h =
      elim (Option-cases (HashMap.get c.databases (normalize db))) [
        | inl e ↦ absurd (ground (arith, h, e))
        | inr (d, e) ↦
            let tn = normalize t in
            ground (
              arith,
              h,
              e,
              HashMap.get-insert c.databases (normalize db) (normalize db') (record d {
                tables = HashMap.remove d.tables tn;
                indexes = HashMap.remove d.indexes tn;
              }),
              HashMap.get-remove d.tables (normalize t) (normalize t'),
              list_beq_iff (normalize db) (normalize db'),
              list_beq_iff (normalize t) (normalize t'),
            )
      ]
